-- ===== src/Core/Values.antt =====
-- `serde_json::Value`, by its documented variants. A number is kept as the text that its `Display`
-- prints, which is all that the program asks of one besides equality.
use mathlib.Core.Path.{◌≡◌, refl, ap, ap₂, subst}
use mathlib.Core.Logic.{◌↔◌}
use mathlib.Core.Bool.{Bool, true, false, ◌&&◌}
use prometheus_entity_sync.Base.{Text, text_beq, text_beq_iff, Eq, and_split}

mutual
  pub data Json : Type 0 where
    null : Json
    bool : Bool → Json
    number : Text → Json
    string : Text → Json
    array : Items → Json
    object : Fields → Json

  pub data Items : Type 0 where
    nil : Items
    cons : Json → Items → Items

  pub data Fields : Type 0 where
    end : Fields
    field : Text → Json → Fields → Fields

abbrev bool_beq : Bool → Bool → Bool
bool_beq true b = b
bool_beq false true = false
bool_beq false false = true

unfoldable mutual
  pub json_beq : Json → Json → Bool
  json_beq null null = true
  json_beq (bool a) (bool b) = bool_beq a b
  json_beq (number a) (number b) = text_beq a b
  json_beq (string a) (string b) = text_beq a b
  json_beq (array a) (array b) = items_beq a b
  json_beq (object a) (object b) = fields_beq a b
  json_beq _ _ = false

  pub items_beq : Items → Items → Bool
  items_beq nil nil = true
  items_beq (cons x xs) (cons y ys) = json_beq x y && items_beq xs ys
  items_beq _ _ = false

  pub fields_beq : Fields → Fields → Bool
  fields_beq end end = true
  fields_beq (field k x xs) (field j y ys) = text_beq k j && (json_beq x y && fields_beq xs ys)
  fields_beq _ _ = false

mutual
  unfolding json_beq items_beq fields_beq

  json_beq_sound : (a b : Json) → json_beq a b ≡ true → a ≡ b
  json_beq_sound null null h = refl
  json_beq_sound (bool true) (bool true) h = refl
  json_beq_sound (bool false) (bool false) h = refl
  json_beq_sound (number a) (number b) h = ap number ((text_beq_iff a b).0 h)
  json_beq_sound (string a) (string b) h = ap string ((text_beq_iff a b).0 h)
  json_beq_sound (array a) (array b) h = ap array (items_beq_sound a b h)
  json_beq_sound (object a) (object b) h = ap object (fields_beq_sound a b h)
  json_beq_sound _ _ h = cc

  items_beq_sound : (a b : Items) → items_beq a b ≡ true → a ≡ b
  items_beq_sound nil nil h = refl
  items_beq_sound (cons x xs) (cons y ys) h =
      let p = and_split _ _ h in ap₂ cons (json_beq_sound x y p.0) (items_beq_sound xs ys p.1)
  items_beq_sound _ _ h = cc

  fields_beq_sound : (a b : Fields) → fields_beq a b ≡ true → a ≡ b
  fields_beq_sound end end h = refl
  fields_beq_sound (field k x xs) (field j y ys) h =
      let p = and_split _ _ h in
      let q = and_split _ _ p.1 in
      let e : k ≡ j = (text_beq_iff k j).0 p.0 in
      let f : x ≡ y = json_beq_sound x y q.0 in
      let g : xs ≡ ys = fields_beq_sound xs ys q.1 in λ i. field (e i) (f i) (g i)
  fields_beq_sound _ _ h = cc

mutual
  unfolding json_beq items_beq fields_beq

  json_beq_refl : (a : Json) → json_beq a a ≡ true
  json_beq_refl null = refl
  json_beq_refl (bool true) = refl
  json_beq_refl (bool false) = refl
  json_beq_refl (number a) = (text_beq_iff a a).1 refl
  json_beq_refl (string a) = (text_beq_iff a a).1 refl
  json_beq_refl (array a) = items_beq_refl a
  json_beq_refl (object a) = fields_beq_refl a

  items_beq_refl : (a : Items) → items_beq a a ≡ true
  items_beq_refl nil = refl
  items_beq_refl (cons x xs) = rw (json_beq_refl x) (items_beq_refl xs)

  fields_beq_refl : (a : Fields) → fields_beq a a ≡ true
  fields_beq_refl end = refl
  fields_beq_refl (field k x xs) =
      rw ((text_beq_iff k k).1 refl, json_beq_refl x) (fields_beq_refl xs)

pub json_beq_iff : (a b : Json) → (json_beq a b ≡ true) ↔ (a ≡ b)
json_beq_iff a b = (json_beq_sound a b, λ p. subst (λ x. json_beq a x ≡ true) p (json_beq_refl a))

instance abbrev pub json_eq : Eq Json
json_eq = record { equals = json_beq; equals_iff = json_beq_iff }
