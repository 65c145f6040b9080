-- ===== src/Coap/Client/Alias.antt =====
-- The Uri-Path options of a request: right for one segment, and for several all read from one array.
use tinyos_rtos.Prelude.{
  ℕ, zero, suc, ◌-◌, ◌≤◌, ◌<◌, ◌≡◌, refl, ap, ◌∙◌, sym, Bool, true, false, List, [], ◌∷◌, ◌++◌,
  arith, ◌==◌, length, take, take-append, drop, All,
}
use mathlib.Core.List.{append_assoc, append-nil}
use tinyos_rtos.Coap.{CoapOption}
use tinyos_rtos.Coap.Client.{
  skip_slash, segments_from, write_segment, nuls, path_loop, make_request, get,
}

abbrev pub NoSlash : List ℕ → Type 0
NoSlash xs = All (λ x. (x == b'/') ≡ false) xs

segments_from-step :
    (x : ℕ) (acc xs : List ℕ)
    → (x == b'/') ≡ false
    → segments_from acc (x ∷ xs) ≡ segments_from (acc ++ (x ∷ [])) xs
unfolding segments_from
segments_from-step x acc xs h = ground (arith, h)

segments_from-end : (acc : List ℕ) → 0 < length acc → segments_from acc [] ≡ (acc, false) ∷ []
unfolding segments_from
segments_from-end acc h = let e : (length acc == 0) ≡ false = ground arith in rw e

segments_from-append :
    (xs acc rest : List ℕ)
    → NoSlash xs
    → segments_from acc (xs ++ rest) ≡ segments_from (acc ++ xs) rest
segments_from-append [] acc rest h =
    ap (λ (t : List ℕ). segments_from t rest) (sym (append-nil acc))
segments_from-append (x ∷ xs) acc rest (h, hs) =
    segments_from-step x acc (xs ++ rest) h
    ∙ (segments_from-append xs (acc ++ (x ∷ [])) rest hs
        ∙ ap (λ (t : List ℕ). segments_from t rest) (append_assoc acc (x ∷ []) xs))

take_prefix : (n : ℕ) (xs ys : List ℕ) → n ≤ length xs → take n (xs ++ ys) ≡ take n xs
take_prefix zero xs ys h = refl
take_prefix (suc n) [] ys h = absurd (omega arith)
take_prefix (suc n) (x ∷ xs) ys h = rw (take_prefix n xs ys (omega arith))

take_all : (n : ℕ) (xs : List ℕ) → length xs ≤ n → take n xs ≡ xs
take_all zero [] h = refl
take_all zero (x ∷ xs) h = absurd (omega arith)
take_all (suc n) [] h = refl
take_all (suc n) (x ∷ xs) h = rw (take_all n xs (omega arith))

-- The last segment, in the array.
last_segment :
    (b buffer : List ℕ) → length b ≤ 63 → (t : List ℕ) × (write_segment (b, false) buffer ≡ b ++ t)
unfolding write_segment
last_segment b buffer h = (
  nuls (64 - length b) ++ drop (length (b ++ nuls (64 - length b))) buffer,
  rw (take_all 63 b h) (append_assoc b _ _),
)

path_loop-cons :
    (s : List ℕ × Bool) (ss : List (List ℕ × Bool)) (buffer : List ℕ)
    → 0 < length s.0
    → length s.0 ≤ 63
    → path_loop (s ∷ ss) buffer ≡ (
      length s.0 ∷ (path_loop ss (write_segment s buffer)).0,
      (path_loop ss (write_segment s buffer)).1,
    )
unfolding path_loop
path_loop-cons s ss buffer some_text short =
    let n : (length s.0 == 0) ≡ false = ground arith in rw (take_all 63 s.0 short, n)

segments_from_one : (b : List ℕ) → NoSlash b → 0 < length b → segments_from [] b ≡ (b, false) ∷ []
segments_from_one b h some_text =
    ap (λ (t : List ℕ). segments_from [] t) (sym (append-nil b))
    ∙ (segments_from-append b [] [] h ∙ segments_from-end b some_text)

segments_from_two :
    (a b : List ℕ)
    → NoSlash a
    → NoSlash b
    → 0 < length b
    → segments_from [] (a ++ (b'/' ∷ b)) ≡ (a, true) ∷ (b, false) ∷ []
unfolding segments_from
segments_from_two a b ha hb some_text =
    segments_from-append a [] (b'/' ∷ b) ha
    ∙ ap (λ (t : List (List ℕ × Bool)). (a, true) ∷ t) (segments_from_one b hb some_text)

skip_slash_lem : (a rest : List ℕ) → NoSlash a → 0 < length a → skip_slash (a ++ rest) ≡ a ++ rest
unfolding skip_slash
skip_slash_lem [] rest h some_text = absurd (omega arith)
skip_slash_lem (x ∷ xs) rest h some_text = rw (h.0)

abbrev pub uri_path_option : List ℕ → CoapOption
uri_path_option value = record { number = 11; value = value }

-- One round for the last segment.
one_round :
    (b buffer : List ℕ)
    → 0 < length b
    → length b ≤ 63
    → (t : List ℕ) × (path_loop ((b, false) ∷ []) buffer ≡ (length b ∷ [], b ++ t))
unfolding path_loop
one_round b buffer some_text short =
    let (t, e) = last_segment b buffer short in
    (
      t,
      path_loop-cons (b, false) [] buffer some_text short
          ∙ ap (λ (l : List ℕ). (length b ∷ [], l)) e,
    )

two_rounds :
    (a b buffer : List ℕ)
    → 0 < length a
    → length a ≤ length b
    → length b ≤ 63
    → (t : List ℕ) × (path_loop ((a, true) ∷ (b, false) ∷ []) buffer
        ≡ (length a ∷ length b ∷ [], b ++ t))
two_rounds a b buffer some_text le short =
    let (t, e) = one_round b (write_segment (a, true) buffer) (omega arith) short in
    (
      t,
      path_loop-cons (a, true) ((b, false) ∷ []) buffer some_text (omega arith)
          ∙ ap (λ (l : List ℕ × List ℕ). (length a ∷ l.0, l.1)) e,
    )

-- A path of one segment of at most 63 bytes, with or without a slash in front, gives one Uri-Path
-- option with the segment.
pub one_segment :
    (message_id tick dead : ℕ) (stack b : List ℕ)
    → NoSlash b
    → 0 < length b
    → length b ≤ 63
    → ((make_request message_id tick stack dead get b []).options ≡ uri_path_option b ∷ [])
      × ((make_request message_id tick stack dead get (b'/' ∷ b) []).options
          ≡ uri_path_option b ∷ [])
unfolding make_request
one_segment message_id tick dead stack b h some_text short =
    let (t, e) = one_round b stack some_text short in
    let round = ap (λ l. path_loop l stack) (segments_from_one b h some_text) ∙ e in
    let bare : skip_slash b ≡ b =
      ap skip_slash (sym (append-nil b)) ∙ (skip_slash_lem b [] h some_text ∙ append-nil b) in
    let slashed : skip_slash (b'/' ∷ b) ≡ b = refl in
    (rw (bare, round, take-append b t), rw (slashed, round, take-append b t))

-- A path of two segments gives two options, but both are read from the array that the last segment was
-- written to: the first option has as many bytes of the second segment as the first segment has.
pub two_segments :
    (message_id tick dead : ℕ) (stack a b : List ℕ)
    → NoSlash a
    → NoSlash b
    → 0 < length a
    → length a ≤ length b
    → length b ≤ 63
    → (make_request message_id tick stack dead get (a ++ (b'/' ∷ b)) []).options
      ≡ uri_path_option (take (length a) b) ∷ uri_path_option b ∷ []
unfolding make_request
two_segments message_id tick dead stack a b ha hb some_text le short =
    let (t, e) = two_rounds a b stack some_text le short in
    let round = ap (λ l. path_loop l stack) (segments_from_two a b ha hb (omega arith)) ∙ e in
    rw (
      skip_slash_lem a (b'/' ∷ b) ha some_text,
      round,
      take_prefix (length a) b t le,
      take-append b t,
    )
