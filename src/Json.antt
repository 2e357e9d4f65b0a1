-- ===== src/Json.antt =====
-- `serde_json::Value` as the sources use it: an object keeps its members in order, a read of a
-- missing member gives `null`, and a write through an index is a panic on a value that is neither
-- an object nor `null`. A number with a fraction or an exponent is kept as its text.
mod Items
pub use Items.*
use ruflo_rust.Prelude.{
  beq_self, ℕ, String, ◌≡◌, refl, Bool, true, false, Option, none, some, List, [], ◌∷◌, arith,
  string_eq, eq_iff, ◌==◌, if◌then◌else◌,
}

-- `json!({ … })` and `json!([ … ])`.
abbrev pub object : List (String × Value) → Value
object kvs = obj (fields kvs)

abbrev pub array : List Value → Value
array vs = arr (from_list vs)

abbrev pub as_str : Value → Option String
as_str (str s) = some s
as_str _ = none

abbrev pub as_bool : Value → Option Bool
as_bool (bool b) = some b
as_bool _ = none

abbrev pub as_u64 : Value → Option ℕ
as_u64 (num (pos_int n)) = some n
as_u64 _ = none

abbrev pub as_array : Value → Option (List Value)
as_array (arr vs) = some (to_list vs)
as_array _ = none

-- `value.get(key)`
abbrev pub get_key : Value → String → Option Value
get_key (obj fs) k = field_of k fs
get_key _ k = none

-- `value[key]`
abbrev pub index : Value → String → Value
index v k = elim (get_key v k) [ none ↦ null | some w ↦ w ]

-- `value[key] = w`; `none` is the panic.
abbrev pub put_key : Value → String → Value → Option Value
put_key null k w = some (obj (field k w end))
put_key (obj fs) k w = some (obj (put_field k w fs))
put_key _ k w = none

-- `value[key].as_str() == Some(text)`
abbrev pub is_text : Option String → String → Bool
is_text none s = false
is_text (some t) s = t == s

abbrev pub holds : Value → String → String → Bool
holds v k s = is_text (as_str (index v k)) s

-- A value with at least one member that is a string is an object, so it can be written to.
pub holds_obj : (v : Value) (k s : String) → holds v k s ≡ true → (fs : Fields) × (v ≡ obj fs)
holds_obj null k s h = cc
holds_obj (bool b) k s h = cc
holds_obj (num n) k s h = cc
holds_obj (str t) k s h = cc
holds_obj (arr vs) k s h = cc
holds_obj (obj fs) k s h = (fs, refl)

pub is_text_ne :
    (o : Option String) (a b : String) → is_text o a ≡ true → (a == b) ≡ false → is_text o b ≡ false
is_text_ne none a b h ne = refl
is_text_ne (some t) a b h ne = ground (arith, eq_iff t a, eq_iff t b, eq_iff a b)

pub index-put_field : (k : String) (v : Value) (fs : Fields) → index (obj (put_field k v fs)) k ≡ v
index-put_field k v fs = ground (arith, field_of-put_field k k v fs, beq_self k)
