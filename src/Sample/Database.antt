-- ===== src/Sample/Database.antt =====
-- A database that is two lists of rows: those stored, and those that the session sees.
use supportops_ai.Common.{any, ◌≡◌, refl, Bool, true, false, Option, none, some, List, ◌++◌, codes}
use supportops_ai.Python.{ok, pure, Uuid}
use supportops_ai.Seed.Rows.{Row, is_user, is_article}
use supportops_ai.Seed.Database.{Database, DatabaseLaws, is_found}

abbrev pub Tables : Type 0
Tables = List Row × List Row

abbrev pub stored : Tables → List Row
stored (s, v) = s

abbrev pub visible : Tables → List Row
visible (s, v) = v

abbrev id_when : Bool → Option Uuid
id_when true = some (codes "1")
id_when false = none

unfoldable pub database : Database Tables
database = record {
  environment = codes "development";
  allow_seed_in_production = none;
  hash_password = λ p. pure (codes "#" ++ p);
  open_session = λ w. (ok tt, (stored w, stored w));
  close_session = pure tt;
  user_id_by_email = λ e w. (ok (id_when (any (is_user e) (visible w))), w);
  any_article_id = λ w. (ok (id_when (any is_article (visible w))), w);
  add_all = λ rows w. (ok tt, (stored w, visible w ++ rows));
  flush = pure tt;
  commit = λ w. (ok tt, (visible w, visible w));
  rollback = λ w. (ok tt, (stored w, stored w));
}

id_when-found : (b : Bool) → is_found (id_when b) ≡ b
id_when-found true = refl
id_when-found false = refl

pub database-DatabaseLaws : DatabaseLaws database stored visible
unfolding database
database-DatabaseLaws = record {
  hash_keeps = λ p. record { kept = λ w. refl };
  hash_sees = λ p. record { kept = λ w. refl };
  open_keeps = record { kept = λ w. refl };
  open_sees = λ w w' h. let e : (stored w, stored w) ≡ w' = cc h in rw (← e) refl;
  close_keeps = record { kept = λ w. refl };
  user_keeps = λ e. record { kept = λ w. refl };
  user_sees = λ e. record { kept = λ w. refl };
  user_answers = λ e w w' o h.
      let same : id_when (any (is_user e) (visible w)) ≡ o = cc h in
      rw (← same) (id_when-found (any (is_user e) (visible w)));
  article_keeps = record { kept = λ w. refl };
  article_sees = record { kept = λ w. refl };
  article_answers = λ w w' o h.
      let same : id_when (any is_article (visible w)) ≡ o = cc h in
      rw (← same) (id_when-found (any is_article (visible w)));
  add_keeps = λ rows. record { kept = λ w. refl };
  add_sees = λ rows w w' h. let e : (stored w, visible w ++ rows) ≡ w' = cc h in rw (← e) refl;
  flush_keeps = record { kept = λ w. refl };
  flush_sees = record { kept = λ w. refl };
  commit_stores = λ w w' h. let e : (visible w, visible w) ≡ w' = cc h in rw (← e) refl;
  commit_fails = λ e w w' h. absurd (cc h);
  rollback_keeps = record { kept = λ w. refl };
}
