-- ===== src/Vix/Claims.antt =====
-- The notification claims of vix/scanner.py: a set of chat, rule and date.
use china_a_share.Prelude.{
  ◌≡◌, Bool, true, false, ◌||◌, if◌then◌else◌, List, [], ◌∷◌, arith, Text, Eq, text_eq, pair_eq,
}

abbrev pub Key : Type 0
Key = Text × (Text × Text)

instance abbrev pub key_eq : Eq Key
key_eq = pair_eq

unfoldable pub has : Key → List Key → Bool
has k [] = false
has k (j ∷ c) = key_eq.beq j k || has k c

-- `claim`: the new set, and whether the key was free.
unfoldable pub claim : Key → List Key → List Key × Bool
claim k c = if has k c then (c, false) else (k ∷ c, true)

-- `release`: `set.discard`
unfoldable pub release : Key → List Key → List Key
release k [] = []
release k (j ∷ c) = let rest = release k c in if key_eq.beq j k then rest else j ∷ rest

pub has-claim : (j k : Key) (c : List Key) → has j (claim k c).0 ≡ (key_eq.beq k j || has j c)
unfolding has claim
has-claim j k c = ground (arith, key_eq.beq_iff k j)

pub has-release :
    (j k : Key) (c : List Key) → has j (release k c) ≡ (if key_eq.beq k j then false else has j c)
unfolding has release
has-release j k [] = ground arith
has-release j k (i ∷ c) =
    ground (arith, key_eq.beq_iff k j, key_eq.beq_iff i k, key_eq.beq_iff i j, has-release j k c)
