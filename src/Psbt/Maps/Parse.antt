-- ===== src/Psbt/Maps/Parse.antt =====
-- `Map::parse` of psbt/src/maps.rs as a fold over the pairs of the stream.
use bp_std.Prelude.{
  ℕ, zero, suc, ◌<◌, ◌≤◌, Bytes, List, [], ◌∷◌, ◌++◌, append_assoc, length, length-append, All, ◌≡◌,
  arith, map, inl, inr,
}
use bp_std.Prelude.Results.{Result, ok, err, Result-cases, ◌>>=◌}
use bp_std.Psbt.Errors.{MapName, PsbtError, DecodeError, psbt}
use bp_std.Psbt.Keys.KeyType.{KeyType}
use bp_std.Psbt.Coders.Writer.{encode_each}
use bp_std.Psbt.Coders.Wire.{Wire, IsWire}
use bp_std.Psbt.Coders.Pairs.{KeyPair, pair, separator, PairToWrite, encode_pair, decode_key_value}
use bp_std.Psbt.Coders.Pairs.RoundTrip.{
  Fits, pair_read, decode-encode_pair, decode-separator, decode_key_value-consumes,
}
use bp_std.Psbt.Maps.{Map, new, add_pair, parse_loop, parse}

module _ {K : Type 0} ⦃t : KeyType K⦄ where
  -- adding the pairs one after another, up to the first that is refused
  abbrev pub add_all : Wire → Map K → List (KeyPair K) → Result PsbtError (Map K)
  add_all w m [] = ok m
  add_all w m (p ∷ ps) = do m' ← add_pair w m p; add_all w m' ps

-- what a parser answers that has read everything but `rest`
abbrev pub leaving : {A : Type 0} → Bytes → Result PsbtError A → Result DecodeError (A × Bytes)
leaving rest (ok a) = ok (a, rest)
leaving rest (err e) = err (psbt e)

module _ {K : Type 0} ⦃t : KeyType K⦄ {w : Wire} (lawful : IsWire w) where
  -- One more round of the loop for a pair that is written.
  parse_loop-pair :
      (fuel : ℕ) (m : Map K) (p : PairToWrite K) (rest : Bytes)
      → Fits p
      → parse_loop w (suc fuel) m ((encode_pair w p).written ++ rest)
        ≡ (elim (add_pair w m (pair_read p)) [
          | err e ↦ err (psbt e)
          | ok m' ↦ parse_loop w fuel m' rest
        ])
  unfolding parse_loop
  parse_loop-pair fuel m p rest f = rw (decode-encode_pair lawful p rest f, parse_loop)

  parse_loop-separator :
      (fuel : ℕ) (m : Map K) (rest : Bytes) → parse_loop w (suc fuel) m (0 ∷ rest) ≡ ok (m, rest)
  unfolding parse_loop
  parse_loop-separator fuel m rest = rw (decode-separator ⦃t = t⦄ lawful rest, parse_loop)

  parse_loop-encode_each :
      (ps : List (PairToWrite K)) (fuel : ℕ) (m : Map K) (rest : Bytes)
      → All (Fits) ps
      → length ps < fuel
      → parse_loop w fuel m ((encode_each (encode_pair w) ps).written ++ (0 ∷ rest))
        ≡ leaving rest (add_all w m (map (pair_read) ps))
  parse_loop-encode_each ps zero m rest fs h = absurd (omega arith)
  parse_loop-encode_each [] (suc fuel) m rest fs h = parse_loop-separator fuel m rest
  parse_loop-encode_each (p ∷ ps) (suc fuel) m rest (f, fs) h =
      rw (append_assoc, parse_loop-pair fuel m p _ f)
        (elim (Result-cases (add_pair w m (pair_read p))) [
          | inl (m', e) ↦ rw e (parse_loop-encode_each ps fuel m' rest fs (omega arith))
          | inr (x, e) ↦ rw e
        ])

  -- the loop has the same result with any fuel above the length of the stream
  parse_loop-fuel :
      (fuel more : ℕ) (m : Map K) (stream : Bytes)
      → length stream < fuel
      → length stream < more
      → parse_loop w fuel m stream ≡ parse_loop w more m stream
  unfolding parse_loop
  parse_loop-fuel zero more m stream h k = absurd (omega arith)
  parse_loop-fuel (suc fuel) zero m stream h k = absurd (omega arith)
  parse_loop-fuel (suc fuel) (suc more) m stream h k =
      elim (Result-cases (decode_key_value {K = K} w stream)) [
        | inl ((separator, rest), e) ↦ rw (e, parse_loop)
        | inl ((pair p, rest), e) ↦ elim (Result-cases (add_pair w m p)) [
          | inl (m', e') ↦
              let c = decode_key_value-consumes lawful stream (pair p) rest e in
              rw (e, parse_loop, e')
                (parse_loop-fuel fuel more m' rest (omega (arith, c)) (omega (arith, c)))
          | inr (x, e') ↦ rw (e, parse_loop, e')
        ]
        | inr (x, e) ↦ rw (e, parse_loop)
      ]

  length-encode_pair : (p : PairToWrite K) → 1 ≤ length (encode_pair w p).written
  unfolding encode_pair
  length-encode_pair p = rw (length-append, length-append, lawful.u8_byte) (omega arith)

  length-encode_each :
      (ps : List (PairToWrite K)) → length ps ≤ length (encode_each (encode_pair w) ps).written
  length-encode_each [] = omega arith
  length-encode_each (p ∷ ps) =
      rw length-append (omega (arith, length-encode_pair p, length-encode_each ps))

  -- Reading the pairs that a map writes, closed by the byte zero, is adding them one after another
  -- to an empty map, up to the first that is refused; what follows the map is left unread.
  pub parse-encode_each :
      (name : MapName) (ps : List (PairToWrite K)) (rest : Bytes)
      → All Fits ps
      → parse w name ((encode_each (encode_pair w) ps).written ++ (0 ∷ rest))
        ≡ leaving rest (add_all w (new name) (map pair_read ps))
  unfolding parse
  parse-encode_each name ps rest fs =
      let stream = (encode_each (encode_pair w) ps).written ++ (0 ∷ rest) in
      parse_loop-encode_each ps (suc (length stream)) (new name) rest fs
        (rw length-append (omega (arith, length-encode_each ps)))

  -- The loop that reads a map ends on every input: with any fuel above the length of the stream it
  -- has the result that it has with the fuel that `parse` gives it.
  pub parse_total :
      (name : MapName) (stream : Bytes) (fuel : ℕ)
      → length stream < fuel
      → parse_loop {K = K} w fuel (new name) stream ≡ parse w name stream
  unfolding parse
  parse_total name stream fuel h =
      parse_loop-fuel fuel (suc (length stream)) (new name) stream h (omega arith)
