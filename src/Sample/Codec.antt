-- ===== src/Sample/Codec.antt =====
-- A codec that meets its laws: JSON in prefix form, read from its end with a stack. A number or
-- character `n` is written `n + 12`, and the numbers below are the marks.
use supportops_ai.Common.{
  ℕ, zero, suc, ◌≡◌, refl, true, false, Option, none, some, List, [], ◌∷◌, ◌++◌, ap, sym, ◌∙◌, Text,
}
use mathlib.Core.List.{append_assoc, append-nil}
use supportops_ai.Json.{
  Json, null, bool, num, float, str, arr, obj, Items, nil, cons, Fields, end, field, Codec,
  CodecLaws,
}

pub data Piece : Type 0 where
  json : Json → Piece
  items : Items → Piece
  fields : Fields → Piece
  text : Text → Piece

unfoldable pub step : ℕ → List Piece → List Piece
step zero l = json null ∷ l
step (suc zero) l = json (bool false) ∷ l
step (suc (suc zero)) l = json (bool true) ∷ l
step (suc (suc (suc zero))) (text (n ∷ []) ∷ l) = json (num n) ∷ l
step (suc (suc (suc (suc zero)))) (text (m ∷ s ∷ []) ∷ l) = json (float m s) ∷ l
step (suc (suc (suc (suc (suc zero))))) (text t ∷ l) = json (str t) ∷ l
step (suc (suc (suc (suc (suc (suc zero)))))) (items is ∷ l) = json (arr is) ∷ l
step (suc (suc (suc (suc (suc (suc (suc zero))))))) (fields fs ∷ l) = json (obj fs) ∷ l
step (suc (suc (suc (suc (suc (suc (suc (suc zero)))))))) l = items nil ∷ l
step (suc (suc (suc (suc (suc (suc (suc (suc (suc zero))))))))) (json v ∷ items is ∷ l) =
    items (cons v is) ∷ l
step (suc (suc (suc (suc (suc (suc (suc (suc (suc (suc zero)))))))))) l = fields end ∷ l
step (suc (suc (suc (suc (suc (suc (suc (suc (suc (suc (suc zero)))))))))))
      (text k ∷ json v ∷ fields fs ∷ l) =
    fields (field k v fs) ∷ l
step (suc (suc (suc (suc (suc (suc (suc (suc (suc (suc (suc (suc zero)))))))))))) l = text [] ∷ l
step (suc (suc (suc (suc (suc (suc (suc (suc (suc (suc (suc (suc (suc c))))))))))))) (text t ∷ l) =
    text (c ∷ t) ∷ l
step _ l = l

unfoldable pub parse : Text → List Piece
parse [] = []
parse (n ∷ t) = step n (parse t)

unfoldable pub dump_text : Text → Text
dump_text [] = 12 ∷ []
dump_text (c ∷ t) =
    suc (suc (suc (suc (suc (suc (suc (suc (suc (suc (suc (suc (suc c)))))))))))) ∷ dump_text t

unfoldable mutual
  pub dump : Json → Text
  dump null = 0 ∷ []
  dump (bool false) = 1 ∷ []
  dump (bool true) = 2 ∷ []
  dump (num n) = 3 ∷ dump_text (n ∷ [])
  dump (float m s) = 4 ∷ dump_text (m ∷ s ∷ [])
  dump (str t) = 5 ∷ dump_text t
  dump (arr is) = 6 ∷ dump_items is
  dump (obj fs) = 7 ∷ dump_fields fs

  pub dump_items : Items → Text
  dump_items nil = 8 ∷ []
  dump_items (cons v is) = 9 ∷ (dump v ++ dump_items is)

  pub dump_fields : Fields → Text
  dump_fields end = 10 ∷ []
  dump_fields (field k v fs) = 11 ∷ (dump_text k ++ (dump v ++ dump_fields fs))

parse-dump_text : (t rest : Text) → parse (dump_text t ++ rest) ≡ text t ∷ parse rest
unfolding parse step dump_text
parse-dump_text [] rest = refl
parse-dump_text (c ∷ t) rest = rw (parse-dump_text t rest)

mutual
  unfolding parse step dump dump_items dump_fields

  parse-dump : (v : Json) (rest : Text) → parse (dump v ++ rest) ≡ json v ∷ parse rest
  parse-dump null rest = refl
  parse-dump (bool false) rest = refl
  parse-dump (bool true) rest = refl
  parse-dump (num n) rest = rw (parse-dump_text (n ∷ []) rest)
  parse-dump (float m s) rest = rw (parse-dump_text (m ∷ s ∷ []) rest)
  parse-dump (str t) rest = rw (parse-dump_text t rest)
  parse-dump (arr is) rest = rw (parse-dump_items is rest)
  parse-dump (obj fs) rest = rw (parse-dump_fields fs rest)

  parse-dump_items :
      (is : Items) (rest : Text) → parse (dump_items is ++ rest) ≡ items is ∷ parse rest
  parse-dump_items nil rest = refl
  parse-dump_items (cons v is) rest =
      rw (append_assoc (dump v) (dump_items is) rest, parse-dump v (dump_items is ++ rest))
        (rw (parse-dump_items is rest))

  parse-dump_fields :
      (fs : Fields) (rest : Text) → parse (dump_fields fs ++ rest) ≡ fields fs ∷ parse rest
  parse-dump_fields end rest = refl
  parse-dump_fields (field k v fs) rest =
      rw
        (
          append_assoc (dump_text k) (dump v ++ dump_fields fs) rest,
          parse-dump_text k ((dump v ++ dump_fields fs) ++ rest),
          append_assoc (dump v) (dump_fields fs) rest,
          parse-dump v (dump_fields fs ++ rest),
        )
        (rw (parse-dump_fields fs rest))

unfoldable pub read : List Piece → Option Json
read (json v ∷ []) = some v
read _ = none

unfoldable pub loads : Text → Option Json
loads t = read (parse t)

unfoldable pub codec : Codec
codec = record { dumps = dump; loads = loads }

parse-dump_all : (v : Json) → parse (dump v) ≡ json v ∷ []
unfolding parse
parse-dump_all v = ap parse (sym (append-nil (dump v))) ∙ parse-dump v []

pub codec-CodecLaws : CodecLaws codec
unfolding codec loads read
codec-CodecLaws = record { loads_dumps = λ v. rw (parse-dump_all v) }
