-- ===== src/Guard/Memory.antt =====
-- Two instances of the interface, on which the guard's functions run: a Redis that holds its entries
-- in memory and always answers, and one that cannot be reached.
use hermes_n8n.Prelude.{
  ◌≢◌, Bool-cases, sym, ℕ, ◌≡◌, refl, Bool, true, false, Option, none, some, inl, inr,
  if◌then◌else◌, is_some,
}
use hermes_n8n.Guard.Keys.{Key, same_key, same_key_refl}
use hermes_n8n.Guard.Redis.{Redis, Entry, alive, fresh, bumped}

abbrev pub Held : Type 0
Held = Key → Option Entry

abbrev pub written : Key → Entry → Held → Held
written k e held j = if same_key j k then some e else held j

pub written_other :
    (k j : Key) (e : Entry) (held : Held) → same_key j k ≡ false → written k e held j ≡ held j
written_other k j e held h = rw h refl

pub written_same : (k : Key) (e : Entry) (held : Held) → written k e held k ≡ some e
written_same k e held = rw (same_key_refl k) refl

abbrev pub put_new : ℕ → Key → ℕ → Held → Held × Option Bool
put_new now k seconds s =
    if is_some (alive now (s k))
    then (s, some false)
    else (written k (fresh now seconds) s, some true)

pub put_new_other :
    (now : ℕ) (k : Key) (seconds : ℕ) (s : Held) (j : Key)
    → same_key j k ≡ false
    → (put_new now k seconds s).0 j ≡ s j
put_new_other now k seconds s j h = elim (Bool-cases (is_some (alive now (s k)))) [
  | inl y ↦ rw y refl
  | inr n ↦ rw n (written_other k j (fresh now seconds) s h)
]

pub some_ne_none : {A : Type 0} (a : A) → some a ≢ none
some_ne_none a h = cc

pub true_ne_false : true ≢ false
true_ne_false h = cc

pub same_content : {A : Type 0} (a b : A) → some a ≡ some b → b ≡ a
same_content a b h = cc

abbrev pub online : Redis
online = record {
  Store = Held;
  entry = λ s k. s k;
  count_up = λ now k seconds s.
      (written k (bumped now seconds (s k)) s, some ((bumped now seconds (s k)).count));
  put = λ now k seconds s. (written k (fresh now seconds) s, true);
  put_new = put_new;
  exists = λ now k s. some (is_some (alive now (s k)));
  count_up_other = λ now k seconds s j h. written_other k j (bumped now seconds (s k)) s h;
  count_up_some = λ now k seconds s n h. (
    written_same k (bumped now seconds (s k)) s,
    same_content ((bumped now seconds (s k)).count) n h,
  );
  count_up_none = λ now k seconds s h. absurd (some_ne_none ((bumped now seconds (s k)).count) h);
  put_other = λ now k seconds s j h. written_other k j (fresh now seconds) s h;
  put_true = λ now k seconds s h. written_same k (fresh now seconds) s;
  put_false = λ now k seconds s h. absurd (true_ne_false h);
  put_new_other = put_new_other;
  put_new_taken = λ now k seconds s h. rw h (refl, inr refl);
  put_new_free = λ now k seconds s b h g.
      (same_content true b (rw h at g), rw h (written_same k (fresh now seconds) s));
  put_new_failed = λ now k seconds s h g. absurd (some_ne_none true (rw h at g));
  exists_some = λ now k s b h. same_content (is_some (alive now (s k))) b h;
}

abbrev pub offline : Redis
offline = record {
  Store = Held;
  entry = λ s k. s k;
  count_up = λ now k seconds s. (s, none);
  put = λ now k seconds s. (s, false);
  put_new = λ now k seconds s. (s, none);
  exists = λ now k s. none;
  count_up_other = λ now k seconds s j h. refl;
  count_up_some = λ now k seconds s n h. absurd (some_ne_none n (sym h));
  count_up_none = λ now k seconds s h. inl refl;
  put_other = λ now k seconds s j h. refl;
  put_true = λ now k seconds s h. absurd (true_ne_false (sym h));
  put_false = λ now k seconds s h. inl refl;
  put_new_other = λ now k seconds s j h. refl;
  put_new_taken = λ now k seconds s h. (refl, inl refl);
  put_new_free = λ now k seconds s b h g. absurd (some_ne_none b (sym g));
  put_new_failed = λ now k seconds s h g. inl refl;
  exists_some = λ now k s b h. absurd (some_ne_none b (sym h));
}
