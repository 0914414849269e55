-- ===== src/Strategies/Store/Names.antt =====
-- strategy_store.py: the names of the objects tell apart what they stand for.
use china_a_share.Prelude.{
  ◌≡◌, refl, ap, inl, inr, Bool, false, ◌||◌, Text, text, nat_beq, [], ◌∷◌, ◌++◌, any, is_nil,
  length, length-append, ok, arith, Bool-cases,
}
use china_a_share.Strategies.Models.{SignalDirection}
use china_a_share.Strategies.Store.{validate_identifier, direction_text}

abbrev pub has_slash : Text → Bool
has_slash s = any (λ c. nat_beq c b'/' || nat_beq c 0x5c) s

pub validate_identifier-slash : (s : Text) → validate_identifier s ≡ ok tt → has_slash s ≡ false
unfolding validate_identifier
validate_identifier-slash s h = elim (Bool-cases (is_nil s)) [
  | inl e ↦ absurd (let h' = rw e at h in cc)
  | inr e ↦ elim (Bool-cases (has_slash s)) [
    | inl f ↦ absurd (let h' = rw (e, f) at h in cc)
    | inr f ↦ f
  ]
]

-- Up to the first slash two texts agree, if they do as a whole.
pub slash_inj :
    (a b c d : Text)
    → has_slash a ≡ false
    → has_slash b ≡ false
    → a ++ b'/' ∷ c ≡ b ++ b'/' ∷ d
    → (a ≡ b) × (c ≡ d)
unfolding any
slash_inj [] [] c d p q h = ground arith
slash_inj [] (y ∷ b) c d p q h = absurd (ground arith)
slash_inj (x ∷ a) [] c d p q h = absurd (ground arith)
slash_inj (x ∷ a) (y ∷ b) c d p q h = ground (arith, slash_inj a b c d)

-- A common prefix cancels, and so does a common suffix.
pub append_inj_left : (a b c : Text) → a ++ b ≡ a ++ c → b ≡ c
append_inj_left [] b c h = h
append_inj_left (x ∷ a) b c h = append_inj_left a b c (cc)

pub append_inj_right : (a b c : Text) → a ++ c ≡ b ++ c → a ≡ b
append_inj_right [] [] c h = refl
append_inj_right [] (y ∷ b) c h = absurd (omega (arith, ap length h, length-append b c))
append_inj_right (x ∷ a) [] c h = absurd (omega (arith, ap length h, length-append a c))
append_inj_right (x ∷ a) (y ∷ b) c h = let rest = append_inj_right a b c (cc) in cc

abbrev pub json_suffix : Text
json_suffix = text ".json"

unfoldable pub owned_name : Text → Text → Text → Text
owned_name prefix owner id = prefix ++ (owner ++ b'/' ∷ (id ++ json_suffix))

unfoldable pub marker_name : Text → Text → Text → SignalDirection → Text
marker_name strategy_id stock_code signal_date direction =
    text "strategies/notifications/"
    ++ (strategy_id
        ++ b'/'
          ∷ (stock_code
              ++ b'/' ∷ (signal_date ++ b'/' ∷ (direction_text direction ++ json_suffix))))

pub owned_name_inj :
    (prefix owner id owner' id' : Text)
    → has_slash owner ≡ false
    → has_slash owner' ≡ false
    → owned_name prefix owner id ≡ owned_name prefix owner' id'
    → (owner ≡ owner') × (id ≡ id')
unfolding owned_name
owned_name_inj prefix owner id owner' id' p q h =
    let rest = append_inj_left prefix _ _ h in
    let (first, last) = slash_inj owner owner' (id ++ json_suffix) (id' ++ json_suffix) p q rest in
    (first, append_inj_right id id' json_suffix last)
