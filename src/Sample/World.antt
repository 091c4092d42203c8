-- ===== src/Sample/World.antt =====
-- A world that is the content of Redis.
use supportops_ai.Common.{
  ◌≡◌, ◌≢◌, refl, Bool, true, false, Option, none, some, Text, codes, text_eq, text_eq_refl,
  text_eq→≡, if◌then◌else◌, Bool-cases, inl, inr,
}
use supportops_ai.Python.{Exn, ok, raise, redis_error, is_redis_error}
use supportops_ai.Redis.{Redis, RedisLaws, RedisFails}

abbrev pub World : Type 0
World = Text → Option Text

abbrev pub live : World → Text → Option Text
live w k = w k

abbrev pub empty : World
empty _ = none

abbrev pub put : Text → Option Text → World → World
put k v w j = if text_eq j k then v else w j

abbrev pub claim : Option Text → Text → Text → World → (Bool × World)
claim none k v w = (true, put k (some v) w)
claim (some _) k v w = (false, w)

unfoldable pub redis : Redis World
redis = record {
  get = λ k w. (ok (w k), w);
  set = λ k v ttl w. (ok tt, put k (some v) w);
  set_nx = λ k v ttl w. let (b, w') = claim (w k) k v w in (ok b, w');
  delete = λ k w. (ok tt, put k none w);
}

-- a Redis that is down
unfoldable pub redis_down : Redis World
redis_down = record {
  get = λ k. raise (redis_error (codes "down"));
  set = λ k v ttl. raise (redis_error (codes "down"));
  set_nx = λ k v ttl. raise (redis_error (codes "down"));
  delete = λ k. raise (redis_error (codes "down"));
}

-- a Redis that refuses a plain write
unfoldable pub redis_read_only : Redis World
redis_read_only = record redis { set = λ k v ttl. raise (redis_error (codes "read only")) }

put_same : (k : Text) (v : Option Text) (w : World) → put k v w k ≡ v
put_same k v w = rw text_eq_refl

put_other : (k j : Text) (v : Option Text) (w : World) → j ≢ k → put k v w j ≡ w j
put_other k j v w differs = elim (Bool-cases (text_eq j k)) [
  | inl same ↦ absurd (differs (text_eq→≡ j k same))
  | inr f ↦ rw f
]

claim_free :
    (o : Option Text) (k v : Text) (w : World)
    → (claim o k v w).0 ≡ true
    → (o ≡ none) × ((claim o k v w).1 k ≡ some v)
claim_free none k v w h = (refl, put_same k (some v) w)
claim_free (some _) k v w h = absurd (cc)

claim_taken :
    (o : Option Text) (k v : Text) (w : World)
    → (claim o k v w).0 ≡ false
    → (o ≢ none) × ((claim o k v w).1 ≡ w)
claim_taken none k v w h = absurd (cc)
claim_taken (some t) k v w h = ((λ e. cc), refl)

claim_others : (o : Option Text) (k v j : Text) (w : World) → j ≢ k → (claim o k v w).1 j ≡ w j
claim_others none k v j w h = put_other k j (some v) w h
claim_others (some t) k v j w h = refl

pub redis-RedisLaws : RedisLaws redis live
unfolding redis
redis-RedisLaws = record {
  get_answers = λ k w w' o h. cc h;
  get_keeps = λ k j w. refl;
  set_writes =
      λ k v ttl w w' h. let e : put k (some v) w ≡ w' = cc h in rw (← e) (put_same k (some v) w);
  set_others = λ k v ttl j w h. put_other k j (some v) w h;
  set_nx_free = λ k v ttl w w' h.
      let b : (claim (w k) k v w).0 ≡ true = cc h in
      let e : (claim (w k) k v w).1 ≡ w' = cc h in rw (← e) (claim_free (w k) k v w b);
  set_nx_taken = λ k v ttl w w' h.
      let b : (claim (w k) k v w).0 ≡ false = cc h in
      let e : (claim (w k) k v w).1 ≡ w' = cc h in
      let (held, same) = claim_taken (w k) k v w b in (held, rw (← e) (rw same));
  set_nx_others = λ k v ttl j w h. claim_others (w k) k v j w h;
  delete_frees = λ k w w' h. let e : put k none w ≡ w' = cc h in rw (← e) (put_same k none w);
  delete_others = λ k j w h. put_other k j none w h;
}

pub redis_down-RedisFails : RedisFails redis_down
unfolding redis_down
redis_down-RedisFails = record {
  get_fails = λ k. record { is_redis = λ w w' e h. redis_only e w w' (cc h) };
  set_fails = λ k v ttl. record { is_redis = λ w w' e h. redis_only e w w' (cc h) };
  set_nx_fails = λ k v ttl. record { is_redis = λ w w' e h. redis_only e w w' (cc h) };
  delete_fails = λ k. record { is_redis = λ w w' e h. redis_only e w w' (cc h) };
}
  where
    redis_only : (e : Exn) (w w' : World) → redis_error (codes "down") ≡ e → is_redis_error e ≡ true
    redis_only e w w' h = rw (← h)

pub redis-RedisFails : RedisFails redis
unfolding redis
redis-RedisFails = record {
  get_fails = λ k. record { is_redis = λ w w' e h. absurd (cc h) };
  set_fails = λ k v ttl. record { is_redis = λ w w' e h. absurd (cc h) };
  set_nx_fails = λ k v ttl. record { is_redis = λ w w' e h. absurd (cc h) };
  delete_fails = λ k. record { is_redis = λ w w' e h. absurd (cc h) };
}
