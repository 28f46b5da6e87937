-- ===== src/FileCompare/Json/Values.antt =====
-- The values that `json::dump` of the library prints without an exception and that its `json` can
-- hold: texts are UTF-8, integers fit 64 bits, and an object is a map with its keys in order.
use sora_transport.Prelude.{
  ℕ, zero, suc, Bool, true, false, ◌&&◌, ◌||◌, Option, none, some, [], ◌∷◌, ltb, leb, ◌==◌, ◌^◌,
  if◌then◌else◌,
}
use sora_transport.Prelude.Int.{ℤ, pos, negsuc}
use sora_transport.Prelude.Text.{Text}
use sora_transport.FileCompare.Json.{
  Json, null, boolean, number, text, array, object, Items, no_item, item, Fields, no_field, field,
}

-- The bytes that a character still has, and the least and the greatest that the next one may be.
abbrev Expected : Type 0
Expected = Option (ℕ × ℕ × ℕ)

abbrev after_lead : ℕ → Expected
after_lead byte =
    if ltb byte 128
    then some (0, 0, 0)
    else if ltb byte 194
    then none
    else if ltb byte 224
    then some (1, 128, 191)
    else if byte == 224
    then some (2, 160, 191)
    else if byte == 237
    then some (2, 128, 159)
    else if ltb byte 240
    then some (2, 128, 191)
    else if byte == 240
    then some (3, 144, 191)
    else if ltb byte 244
    then some (3, 128, 191)
    else if byte == 244
    then some (3, 128, 143)
    else none

abbrev utf8_from : Expected → Text → Bool
utf8_from none t = false
utf8_from (some (k, lo, hi)) [] = k == 0
utf8_from (some (zero, lo, hi)) (byte ∷ t) = utf8_from (after_lead byte) t
utf8_from (some (suc k, lo, hi)) (byte ∷ t) =
    utf8_from (if leb lo byte && leb byte hi then some (k, 128, 191) else none) t

unfoldable pub is_utf8 : Text → Bool
is_utf8 t = utf8_from (some (0, 0, 0)) t

abbrev less_text : Text → Text → Bool
less_text t [] = false
less_text [] (b ∷ u) = true
less_text (a ∷ t) (b ∷ u) = ltb a b || a == b && less_text t u

abbrev fits_number : ℤ → Bool
fits_number (pos n) = ltb n (2 ^ 64)
fits_number (negsuc n) = ltb n (2 ^ 63)

abbrev before_fields : Text → Fields → Bool
before_fields key no_field = true
before_fields key (field name value rest) = less_text key name

unfoldable mutual
  unfolding is_utf8

  pub is_value : Json → Bool
  is_value null = true
  is_value (boolean b) = true
  is_value (number z) = fits_number z
  is_value (text t) = is_utf8 t
  is_value (array items) = are_values items
  is_value (object fields) = are_fields fields

  pub are_values : Items → Bool
  are_values no_item = true
  are_values (item json rest) = is_value json && are_values rest

  pub are_fields : Fields → Bool
  are_fields no_field = true
  are_fields (field name value rest) =
      is_utf8 name && is_value value && before_fields name rest && are_fields rest
