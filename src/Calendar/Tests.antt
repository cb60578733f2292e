-- ===== src/Calendar/Tests.antt =====
-- The slot engine on one day in UTC.
use hermes_n8n.Prelude.{◌≡◌, ◌↔◌, refl, some, [], ◌∷◌, Member, All, ◌*◌, ◌+◌, ◌-◌}
use hermes_n8n.Calendar.Slots.{
  Zone, CalendarSlot, CalendarPolicy, AvailabilityRequest, zoned_date, generate_slots,
}
use hermes_n8n.Calendar.Free.{IsOffer}
use hermes_n8n.Calendar.Search.{Instants, IsRange, generate_slots_iff}

abbrev utc : Zone
utc = record { local_time = λ t. t }

-- Thursdays from nine to ten, half an hour each, ten minutes apart.
abbrev thursdays : CalendarPolicy
thursdays = record {
  duration_minutes = 30;
  buffer_minutes = 10;
  start_hour = 9;
  start_minute = 0;
  end_hour = 10;
  end_minute = 0;
  business_days = 4 ∷ [];
}

abbrev first_day : AvailabilityRequest
first_day = record { from = some 0; to = some 86400000 }

abbrev whole_day : CalendarSlot
whole_day = record { start = 0; end = 86400000 }

-- A meeting before a quarter past nine less ten minutes.
abbrev meeting : AvailabilityRequest
meeting = record { from = some (8 * 3600000); to = some (9 * 3600000 + 5 * 60000) }

abbrev taken : CalendarSlot
taken = record { start = 8 * 3600000; end = 9 * 3600000 + 5 * 60000 }

abbrev at_quarter : CalendarSlot
at_quarter = record { start = 9 * 3600000 + 15 * 60000; end = 9 * 3600000 + 45 * 60000 }

abbrev at_half : CalendarSlot
at_half = record { start = 9 * 3600000 + 30 * 60000; end = 10 * 3600000 }

taken_of : Instants (meeting ∷ []) (taken ∷ [])
taken_of = Instants.one_more meeting [] taken [] refl refl Instants.no_ranges

offered :
    generate_slots utc first_day (meeting ∷ []) thursdays 1000 ≡ some (at_quarter ∷ at_half ∷ [])
unfolding generate_slots
offered = refl

-- The clocks of Quito are five hours behind.
abbrev quito : Zone
quito = record { local_time = λ t. t - 18000000 }

opens_at_nine : zoned_date quito 10 9 0 ≡ some (10 * 86400000 + 14 * 3600000)
unfolding zoned_date
opens_at_nine = refl

generate_slots_iff_example :
    IsRange whole_day
    × All IsRange (taken ∷ [])
    × ((s : CalendarSlot)
        → Member s (at_quarter ∷ at_half ∷ [])
          ↔ IsOffer thursdays whole_day (taken ∷ []) 1000 utc 33 0 s)
generate_slots_iff_example =
    generate_slots_iff utc first_day (meeting ∷ []) thursdays 1000 whole_day (taken ∷ [])
      (at_quarter ∷ at_half ∷ []) refl refl taken_of offered
