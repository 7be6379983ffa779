-- ===== src/Http/Query/Laws.antt =====
-- A query string that a form encoder writes, read back.
use menagerie.Prelude.{
  ℕ, ◌/◌, ◌%◌, ◌≡◌, refl, ap, ◌∙◌, ◌⊎◌, inl, inr, Bool, true, false, List, [], ◌∷◌, ◌++◌, arith,
  ◌==◌, ==-eq-false, Bool-cases, is_empty, All, All-append, Bytes,
}
use menagerie.Http.UrlDecode.Encoding.{
  hex_digit, percent_encode, IsUnreserved, IsByte, url_decode-percent_encode,
}
use menagerie.Http.Headers.{Field}
use menagerie.Http.Query.{
  ampersand, equals, pairs_from, pairs, key_of, value_of, query_params, parse_query,
}

-- The characters that stand for themselves do not separate.
pub record IsQuerySafe (safe : ℕ → Bool) : Type 0 where
  pub unreserved : IsUnreserved safe
  pub no_ampersand : safe ampersand ≡ false
  pub no_equals : safe equals ≡ false

abbrev pub write_pair : (ℕ → Bool) → Field → Bytes
write_pair safe (k, v) = percent_encode safe k ++ equals ∷ percent_encode safe v

-- `k=v` for each parameter, with `&` between.
pub write_query : (ℕ → Bool) → List Field → Bytes
write_query safe [] = []
write_query safe (p ∷ []) = write_pair safe p
write_query safe (p ∷ q ∷ ps) = write_pair safe p ++ ampersand ∷ write_query safe (q ∷ ps)

abbrev pub AreBytes : Field → Type 0
AreBytes (k, v) = All IsByte k × All IsByte v

hex_digit-separates : (v b : ℕ) → (b ≡ ampersand) ⊎ (b ≡ equals) → (hex_digit v == b) ≡ false
unfolding hex_digit
hex_digit-separates v b h = ground arith

percent_encode-free :
    (safe : ℕ → Bool) (b : ℕ) (s : Bytes)
    → (b ≡ ampersand) ⊎ (b ≡ equals)
    → safe b ≡ false
    → All (λ c. (c == b) ≡ false) (percent_encode safe s)
unfolding percent_encode
percent_encode-free safe b [] h k = tt
percent_encode-free safe b (c ∷ s) h k = elim (Bool-cases (safe c)) [
  | inl y ↦
      rw (y, percent_encode)
        (==-eq-false c b (λ e. cc (ap safe e)), percent_encode-free safe b s h k)
  | inr n ↦
      rw (n, percent_encode)
        (
          ground arith,
          (
            hex_digit-separates (c / 16) b h,
            (hex_digit-separates (c % 16) b h, percent_encode-free safe b s h k),
          ),
        )
]

key_of-append : (k v : Bytes) → All (λ c. (c == equals) ≡ false) k → key_of (k ++ equals ∷ v) ≡ k
unfolding key_of
key_of-append [] v h = refl
key_of-append (c ∷ k) v (p, h) = rw (p, key_of-append k v h)

value_of-append :
    (k v : Bytes) → All (λ c. (c == equals) ≡ false) k → value_of (k ++ equals ∷ v) ≡ v
unfolding value_of
value_of-append [] v h = refl
value_of-append (c ∷ k) v (p, h) = rw (p, value_of-append k v h)

pairs_from-last : (p : Bytes) → All (λ c. (c == ampersand) ≡ false) p → pairs_from p ≡ p ∷ []
unfolding pairs_from
pairs_from-last [] h = refl
pairs_from-last (c ∷ p) (k, h) = rw (k, pairs_from-last p h)

pairs_from-append :
    (p qs : Bytes)
    → All (λ c. (c == ampersand) ≡ false) p
    → is_empty qs ≡ false
    → pairs_from (p ++ ampersand ∷ qs) ≡ p ∷ pairs_from qs
unfolding pairs_from
pairs_from-append [] qs h e = rw e
pairs_from-append (c ∷ p) qs (k, h) e = rw (k, pairs_from-append p qs h e)

module _ (safe : ℕ → Bool) (query_safe : IsQuerySafe safe) where
  encoded-ampersand : (s : Bytes) → All (λ c. (c == ampersand) ≡ false) (percent_encode safe s)
  encoded-ampersand s = percent_encode-free safe ampersand s (inl refl) query_safe.no_ampersand

  encoded-equals : (s : Bytes) → All (λ c. (c == equals) ≡ false) (percent_encode safe s)
  encoded-equals s = percent_encode-free safe equals s (inr refl) query_safe.no_equals

  write_pair-free : (p : Field) → All (λ c. (c == ampersand) ≡ false) (write_pair safe p)
  write_pair-free (k, v) =
      All-append _ (percent_encode safe k) (equals ∷ percent_encode safe v) (encoded-ampersand k)
        (refl, encoded-ampersand v)

  is_empty-write_query :
      (p : Field) (ps : List Field) → is_empty (write_query safe (p ∷ ps)) ≡ false
  unfolding write_query
  is_empty-write_query (k, v) [] = starts (percent_encode safe k) (percent_encode safe v)
    where
      starts : (a b : Bytes) → is_empty (a ++ equals ∷ b) ≡ false
      starts [] b = refl
      starts (c ∷ a) b = refl
  is_empty-write_query (k, v) (q ∷ ps) = starts (write_pair safe (k, v)) (write_query safe (q ∷ ps))
    where
      starts : (a b : Bytes) → is_empty (a ++ ampersand ∷ b) ≡ false
      starts [] b = refl
      starts (c ∷ a) b = refl

  query_params-cons :
      (p : Field) (rest : List Bytes)
      → AreBytes p
      → query_params (write_pair safe p ∷ rest) ≡ p ∷ query_params rest
  unfolding query_params
  query_params-cons (k, v) rest (hk, hv) = rw (
    key_of-append (percent_encode safe k) (percent_encode safe v) (encoded-equals k),
    value_of-append (percent_encode safe k) (percent_encode safe v) (encoded-equals k),
    url_decode-percent_encode safe k true query_safe.unreserved hk,
    url_decode-percent_encode safe v true query_safe.unreserved hv,
  )

  read-write :
      (p : Field) (ps : List Field)
      → All AreBytes (p ∷ ps)
      → query_params (pairs_from (write_query safe (p ∷ ps))) ≡ p ∷ ps
  unfolding write_query query_params
  read-write p [] (h, _) =
      ap query_params (pairs_from-last (write_pair safe p) (write_pair-free p))
      ∙ query_params-cons p [] h
  read-write p (q ∷ ps) (h, hs) =
      ap query_params (
        pairs_from-append (write_pair safe p) (write_query safe (q ∷ ps)) (write_pair-free p)
          (is_empty-write_query q ps))
      ∙ (query_params-cons p (pairs_from (write_query safe (q ∷ ps))) h
          ∙ ap (λ l. p ∷ l) (read-write q ps hs))

-- Any parameters, in their order and with their repetitions, written as a query string with their
-- keys and values percent-encoded, are what parsing it gives back, if the characters that the
-- encoder leaves alone are not `%`, `+`, `&` or `=`.
pub parse_query-write_query :
    (safe : ℕ → Bool)
    → IsQuerySafe safe
    → (ps : List Field) → All AreBytes ps
    → parse_query (write_query safe ps) ≡ ps
unfolding parse_query pairs
parse_query-write_query safe query_safe [] h = unfold write_query query_params in refl
parse_query-write_query safe query_safe (p ∷ ps) h =
    rw (is_empty-write_query safe query_safe p ps) (read-write safe query_safe p ps h)
