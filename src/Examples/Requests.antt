-- ===== src/Examples/Requests.antt =====
-- The data of a request, sent again with its fields in another order and at another time.
use metro_backend.Prelude.{ℕ, ◌≡◌, refl, [], ◌∷◌, Text}
use metro_backend.Idempotency.Normalize.{
  Value, leaf, object, done, field, dynamic_fields, normalize_data, normalize, normalize_fields,
  insert_field, text_le, SameValue, same_object, swapped, dropped, joined,
}

abbrev price : Text
price = b'p' ∷ b'r' ∷ b'i' ∷ b'c' ∷ b'e' ∷ []

abbrev seat : Text
seat = b's' ∷ b'e' ∷ b'a' ∷ b't' ∷ []

abbrev ip : Text
ip = b'i' ∷ b'p' ∷ []

abbrev value : ℕ → Value
value n = leaf (n ∷ [])

abbrev sent : Value
sent = object (field ip (value 1) (field seat (value 2) (field price (value 3) done)))

abbrev again : Value
again = object (field price (value 3) (field seat (value 2) done))

same : SameValue dynamic_fields sent again
same =
    same_object _ _ (
      joined _ _ _ (dropped ip (value 1) _ refl) (swapped seat price (value 2) (value 3) done refl))

sent-normalized : normalize_data sent ≡ object (field price (value 3) (field seat (value 2) done))
unfolding normalize normalize_fields insert_field text_le
sent-normalized = refl
