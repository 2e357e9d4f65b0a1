-- ===== src/Json/Items.antt =====
-- The data type of JSON values, with the lists of its elements and of its members.
use ruflo_rust.Prelude.{
  ℕ, String, ◌≡◌, refl, Bool, Option, none, some, List, [], ◌∷◌, arith, string_eq, eq_iff, ◌==◌,
  if◌then◌else◌,
}

pub data Number : Type 0 where
  pos_int : ℕ → Number
  neg_int : ℕ → Number  -- -n, for n above 0
  float : String → Number

mutual
  pub data Value : Type 0 where
    null : Value
    bool : Bool → Value
    num : Number → Value
    str : String → Value
    arr : Items → Value
    obj : Fields → Value

  pub data Fields : Type 0 where
    end : Fields
    field : String → Value → Fields → Fields

  pub data Items : Type 0 where
    nil : Items
    cons : Value → Items → Items

abbrev pub to_list : Items → List Value
to_list nil = []
to_list (cons v vs) = v ∷ to_list vs

abbrev pub from_list : List Value → Items
from_list [] = nil
from_list (v ∷ vs) = cons v (from_list vs)

pub to_list-from_list : (vs : List Value) → to_list (from_list vs) ≡ vs
to_list-from_list [] = refl
to_list-from_list (v ∷ vs) = rw (to_list-from_list vs)

pub from_list-to_list : (vs : Items) → from_list (to_list vs) ≡ vs
from_list-to_list nil = refl
from_list-to_list (cons v vs) = rw (from_list-to_list vs)

abbrev pub fields : List (String × Value) → Fields
fields [] = end
fields ((k, v) ∷ kvs) = field k v (fields kvs)

abbrev pub field_of : String → Fields → Option Value
field_of k end = none
field_of k (field j v fs) = if j == k then some v else field_of k fs

-- The member of a key that is there keeps its place, and a new one goes to the end.
abbrev pub put_field : String → Value → Fields → Fields
put_field k w end = field k w end
put_field k w (field j v fs) = if j == k then field j w fs else field j v (put_field k w fs)

-- Where `Map::remove` fills the gap with the last member, this keeps the order: no code here reads
-- the order of an object's members.
abbrev pub remove_field : String → Fields → Fields
remove_field k end = end
remove_field k (field j v fs) =
    let rest = remove_field k fs in if j == k then rest else field j v rest

pub field_of-put_field :
    (k j : String) (w : Value) (fs : Fields)
    → field_of j (put_field k w fs) ≡ (if k == j then some w else field_of j fs)
field_of-put_field k j w end = refl
field_of-put_field k j w (field i v fs) =
    ground (arith, eq_iff k j, eq_iff i k, eq_iff i j, field_of-put_field k j w fs)

pub field_of-remove_field :
    (k j : String) (fs : Fields)
    → field_of j (remove_field k fs) ≡ (if k == j then none else field_of j fs)
field_of-remove_field k j end = ground arith
field_of-remove_field k j (field i v fs) =
    ground (arith, eq_iff k j, eq_iff i k, eq_iff i j, field_of-remove_field k j fs)
