-- ===== src/Json.antt =====
-- JSON values, and Python's `json` as a codec whose printed form is a parameter.
use supportops_ai.Common.{
  ℕ, ◌≡◌, Bool, Option, none, some, Text, text_eq, text_eq_refl, if◌then◌else◌, arith,
}

mutual
  pub data Json : Type 0 where
    null : Json
    bool : Bool → Json
    num : ℕ → Json
    -- `mantissa / 2 ^ shift`
    float : ℕ → ℕ → Json
    str : Text → Json
    arr : Items → Json
    obj : Fields → Json

  pub data Items : Type 0 where
    nil : Items
    cons : Json → Items → Items

  pub data Fields : Type 0 where
    end : Fields
    field : Text → Json → Fields → Fields

-- `d.get(k)`
unfoldable pub get_field : Text → Fields → Option Json
get_field k end = none
get_field k (field j v fs) = if text_eq j k then some v else get_field k fs

-- `{**d, k: v}`: in its place if the key is there, else at the end
unfoldable pub put_field : Text → Json → Fields → Fields
put_field k v end = field k v end
put_field k v (field j w fs) = if text_eq j k then field j v fs else field j w (put_field k v fs)

pub get_field-put_field :
    (k : Text) (v : Json) (fs : Fields) → get_field k (put_field k v fs) ≡ some v
unfolding get_field put_field
get_field-put_field k v end = rw text_eq_refl
get_field-put_field k v (field j w fs) = ground (arith, get_field-put_field k v fs)

-- `json.dumps(v, default=str)` and `json.loads(t)`; `none` is a `ValueError`.
pub record Codec : Type 0 where
  pub dumps : Json → Text
  pub loads : Text → Option Json

-- What is printed is read back.
pub record CodecLaws (c : Codec) : Type 0 where
  pub loads_dumps : (v : Json) → c.loads (c.dumps v) ≡ some v
