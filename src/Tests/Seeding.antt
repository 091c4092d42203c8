-- ===== src/Tests/Seeding.antt =====
-- Two runs of the seed on an empty database.
use supportops_ai.Common.{◌≡◌, refl, List, [], length, map, text_eq}
use supportops_ai.Python.{Outcome, ok, raised}
use supportops_ai.Sample.Database.{Tables, stored, visible, database, database-DatabaseLaws}
use supportops_ai.Seed.Rows.{NewDeskTicket}
use supportops_ai.Seed.Accounts.{customers}
use supportops_ai.Seed.Desk.{tickets}
use supportops_ai.Seed.Run.{UsersByEmail, returned, seed, seed_users, tickets_of, new_customer}
use supportops_ai.Seed.Indexes.{IsWired, tickets_of-IsWired}
use supportops_ai.Seed.Atomic.{IsAllOrNothing, IsComplete, seed-IsAllOrNothing}
use supportops_ai.Seed.Twice.{seed-seed}

abbrev empty : Tables
empty = ([], [])

abbrev seeded : Tables
seeded = (seed database empty).1

seeds : seed database empty ≡ (ok returned, seeded)
unfolding seed text_eq database
seeds = refl

seed-IsAllOrNothing_example :
    IsAllOrNothing database stored visible database-DatabaseLaws empty seeded
    × (ok returned ≡ ok returned
        → IsComplete database stored visible database-DatabaseLaws empty seeded)
seed-IsAllOrNothing_example =
    seed-IsAllOrNothing database stored visible database-DatabaseLaws empty seeded (ok returned)
      seeds

seed-seed_example : stored (seed database seeded).1 ≡ stored seeded
seed-seed_example =
    seed-seed database stored visible database-DatabaseLaws empty seeded (seed database seeded).1
      (seed database seeded).0 seeds refl

-- 4 users, 5 customers, 15 tickets and 11 articles
rows_seeded : length (stored seeded) ≡ 35
unfolding seed text_eq database
rows_seeded = refl

abbrev or_nobody : Outcome UsersByEmail → UsersByEmail
or_nobody (ok d) = d
or_nobody (raised _) = []

abbrev by_email : UsersByEmail
by_email = or_nobody (seed_users database empty).0

created : seed_users database empty ≡ (ok by_email, (seed_users database empty).1)
unfolding seed_users database
created = refl

tickets_of-IsWired_example :
    (rows : List NewDeskTicket) × (tickets_of (map new_customer customers) by_email tickets
      ≡ ok rows)
    × IsWired (map new_customer customers) rows tickets
tickets_of-IsWired_example =
    tickets_of-IsWired database by_email empty (seed_users database empty).1 created
