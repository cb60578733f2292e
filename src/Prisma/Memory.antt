-- ===== src/Prisma/Memory.antt =====
-- A client whose tables are lists held in memory: the laws of the interface can be met, and the
-- development's functions run on it.
use hermes_n8n.Prelude.{
  refl, ◌∙◌, List, ◌∷◌, [], ◌++◌, find, count, select, map_where, map_first, count-select,
}
use hermes_n8n.Prisma.Sort.{sort, count-sort, sort-Ordered, first, first-none, first-IsFirst}
use hermes_n8n.Prisma.Client.{Prisma}

abbrev pub memory : Prisma
memory = record {
  Table = List;
  rows = λ t. t;
  find_unique = find;
  find_first = first;
  find_many = λ by w t. sort by (select w t);
  count_rows = count;
  create = λ r t. t ++ r ∷ [];
  update = map_first;
  update_many = λ w f t. (map_where w f t, count w t);
  find_unique_rows = λ w t. refl;
  find_first_some = λ by w t r h. first-IsFirst by w t r h;
  find_first_none = first-none;
  find_many_count = λ by w p t. count-sort by p (select w t) ∙ count-select w p t;
  find_many_ordered = λ by w t. sort-Ordered by (select w t);
  count_rows_lem = λ w t. refl;
  create_rows = λ r t. refl;
  update_rows = λ w f t. refl;
  update_many_rows = λ w f t. refl;
  update_many_count = λ w f t. refl;
}
