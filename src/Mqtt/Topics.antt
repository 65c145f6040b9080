-- ===== src/Mqtt/Topics.antt =====
-- mqtt.c: topics and patterns. A C string is the list of its characters, without the NUL.
use tinyos_rtos.Prelude.{
  ◌<◌, ◌≤◌, length-append, length, ℕ, zero, suc, ◌+◌, ◌≡◌, refl, ap, ◌∙◌, Bool, true, false, List,
  [], ◌∷◌, ◌++◌, arith, ◌==◌, if◌then◌else◌, All,
}

-- `while (*t && *t != '/') t++`
unfoldable pub skip_level : List ℕ → List ℕ
skip_level [] = []
skip_level (x ∷ xs) = let rest = skip_level xs in if x == b'/' then x ∷ xs else rest

-- `if (*s == '/') s++`
abbrev pub skip_slash : List ℕ → List ℕ
skip_slash [] = []
skip_slash (x ∷ xs) = if x == b'/' then xs else x ∷ xs

-- A round takes a character of one of the two, so that their lengths bound the rounds.
unfoldable pub matches : ℕ → List ℕ → List ℕ → Bool
unfolding skip_level
matches zero s t = false
matches (suc rounds) [] [] = true
matches (suc rounds) [] (y ∷ ys) = false
matches (suc rounds) (x ∷ xs) [] = false
matches (suc rounds) (x ∷ xs) (y ∷ ys) =
    let level = matches rounds (skip_slash xs) (skip_level (y ∷ ys)) in
    let next = matches rounds xs ys in
    if x == b'#' then true else if x == b'+' then level else if x == y then next else false

-- Each round that goes on takes a character of the pattern.
unfoldable pub mqtt_topic_matches : List ℕ → List ℕ → Bool
unfolding matches
mqtt_topic_matches subscription topic = matches (suc (length subscription)) subscription topic

skip_slash-le : (xs : List ℕ) → length (skip_slash xs) ≤ length xs
skip_slash-le [] = omega arith
skip_slash-le (x ∷ xs) = ground arith

-- More rounds change nothing.
matches_enough :
    (f g : ℕ) (s t : List ℕ) → length s < f → length s < g → matches f s t ≡ matches g s t
unfolding matches
matches_enough zero g s t h k = absurd (omega arith)
matches_enough (suc f) zero s t h k = absurd (omega arith)
matches_enough (suc f) (suc g) [] [] h k = refl
matches_enough (suc f) (suc g) [] (y ∷ ys) h k = refl
matches_enough (suc f) (suc g) (x ∷ xs) [] h k = refl
matches_enough (suc f) (suc g) (x ∷ xs) (y ∷ ys) h k =
    let level =
      matches_enough f g (skip_slash xs) (skip_level (y ∷ ys)) (omega (arith, skip_slash-le xs))
        (omega (arith, skip_slash-le xs)) in
    let next = matches_enough f g xs ys (omega arith) (omega arith) in rw (level, next) refl

-- No wildcard
abbrev pub IsLiteral : List ℕ → Type 0
IsLiteral xs = All (λ x. ((x == b'#') ≡ false) × ((x == b'+') ≡ false)) xs

-- No slash
abbrev pub IsLevel : List ℕ → Type 0
IsLevel xs = All (λ x. (x == b'/') ≡ false) xs

eq_self : (x : ℕ) → (x == x) ≡ true
eq_self x = ground arith

-- A literal beginning is matched.
matches-append :
    (p : List ℕ) (f k : ℕ) (s t : List ℕ)
    → IsLiteral p
    → f ≡ length p + k
    → matches f (p ++ s) (p ++ t) ≡ matches k s t
unfolding matches
matches-append [] f k s t lit e = ap (λ (m : ℕ). matches m s t) (omega (arith, e))
matches-append (x ∷ p) zero k s t lit e = absurd (omega (arith, e))
matches-append (x ∷ p) (suc f) k s t ((hash, plus), lit) e =
    rw (hash, plus, eq_self x) (matches-append p f k s t lit (omega (arith, e)))

skip_level-append : (b rest : List ℕ) → IsLevel b → skip_level (b ++ (b'/' ∷ rest)) ≡ b'/' ∷ rest
unfolding skip_level
skip_level-append [] rest level = refl
skip_level-append (x ∷ b) rest (no_slash, level) = rw no_slash (skip_level-append b rest level)

module _ (x : ℕ) (xs rest : List ℕ) where
  at_slash :
      (k : ℕ) → IsLiteral (x ∷ []) → (x == b'/') ≡ false → matches k (x ∷ xs) (b'/' ∷ rest) ≡ false
  unfolding matches
  at_slash zero lit other = refl
  at_slash (suc k) lit other = rw (lit.0.0, lit.0.1, other) refl

  after_plus :
      (k : ℕ) (b : List ℕ)
      → IsLevel b
      → IsLiteral (x ∷ [])
      → (x == b'/') ≡ false
      → matches k (b'+' ∷ b'/' ∷ x ∷ xs) (b ++ (b'/' ∷ rest)) ≡ false
  unfolding matches
  after_plus zero b level lit other = refl
  after_plus (suc k) [] level lit other = at_slash k lit other
  after_plus (suc k) (y ∷ b) level lit other =
      ap (λ (t : List ℕ). matches k (x ∷ xs) t) (skip_level-append (y ∷ b) rest level)
      ∙ at_slash k lit other

  -- Where a pattern goes on behind `+/`, with a character that is no wildcard and no slash, no topic
  -- with a level in the place of the `+`, and with the same text without wildcards in front of it,
  -- matches, whatever follows.
  pub plus_never_matches :
      (p b : List ℕ)
      → IsLiteral p
      → IsLevel b
      → IsLiteral (x ∷ [])
      → (x == b'/') ≡ false
      → mqtt_topic_matches (p ++ (b'+' ∷ b'/' ∷ x ∷ xs)) (p ++ (b ++ (b'/' ∷ rest))) ≡ false
  unfolding mqtt_topic_matches
  plus_never_matches p b lit level lit' other =
      let s = b'+' ∷ b'/' ∷ x ∷ xs in
      matches-append p (suc (length (p ++ s))) (suc (length s)) s (b ++ (b'/' ∷ rest)) lit
        (omega (arith, length-append p s))
      ∙ after_plus (suc (length s)) b level lit' other
