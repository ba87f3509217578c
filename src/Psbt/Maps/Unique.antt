-- ===== src/Psbt/Maps/Unique.antt =====
-- Keys are unique: `Map::parse` of psbt/src/maps.rs files each pair under a key that was free.
use bp_std.Prelude.{
  map, ◌++◌, Bytes, List, [], ◌∷◌, true, some, ◌≡◌, ◌≢◌, refl, sym, ◌∙◌, arith, All,
}
use bp_std.Prelude.Results.{Result, ok, err, >>=-eq-ok}
use bp_std.Prelude.Eq.{nat_eq, bytes_eq_iff}
use bp_std.Psbt.Errors.{PsbtError}
use bp_std.Psbt.Keys.KeyType.{KeyType, key_ord}
use bp_std.Psbt.Keys.Laws.{IsLawful}
use bp_std.Psbt.Coders.Wire.{Wire, IsWire}
use bp_std.Psbt.Coders.Pairs.{KeyPair}
use bp_std.Psbt.Coders.Values.{prop_key_eq_iff, prop_key_instance}
use bp_std.Psbt.Maps.{Map, add_pair}
use bp_std.Psbt.Maps.Parse.{add_all, leaving, parse-encode_each}
use bp_std.Psbt.Maps.Extends.{add_pair-Extends}
use bp_std.Psbt.Coders.Writer.{encode_each}
use bp_std.Psbt.Coders.Pairs.{PairToWrite, encode_pair}
use bp_std.Psbt.Coders.Pairs.RoundTrip.{Fits, pair_read}
use bp_std.Psbt.Errors.{MapName}
use bp_std.Psbt.Maps.{new, parse}
use bp_std.Psbt.Maps.Lookup.{
  FullKey, proprietary, plural, singular, unknown, full_key, full_key_eq, find,
}

module _ {K : Type 0} ⦃t : KeyType K⦄ (lawful : IsLawful t) (w : Wire) where
  full_key_eq→eq : (k j : FullKey K) → full_key_eq k j ≡ true → k ≡ j
  full_key_eq→eq (proprietary a) (proprietary b) h = ground (arith, prop_key_eq_iff a b)
  full_key_eq→eq (plural a d) (plural b e) h =
      ground (arith, lawful.order_injective a b, bytes_eq_iff d e)
  full_key_eq→eq (singular a) (singular b) h = ground (arith, lawful.order_injective a b)
  full_key_eq→eq (unknown a d) (unknown b e) h = ground (arith, bytes_eq_iff d e)
  full_key_eq→eq _ _ h = cc

  full_key_eq_refl : (k : FullKey K) → full_key_eq k k ≡ true
  full_key_eq_refl (proprietary a) = (prop_key_eq_iff a a).1 refl
  full_key_eq_refl (plural a d) = ground (arith, bytes_eq_iff d d)
  full_key_eq_refl (singular a) = ground arith
  full_key_eq_refl (unknown a d) = ground (arith, bytes_eq_iff d d)

  -- what is found under a key stays there when a pair is added
  find-add_pair :
      (p : KeyPair K) (m m' : Map K) (j : FullKey K) {v : Bytes}
      → add_pair w m p ≡ ok m'
      → find j m ≡ some v
      → find j m' ≡ some v
  find-add_pair p m m' j {v} h f =
      let (k, e, x) = add_pair-Extends lawful w m m' p h in
      ground (arith, x.free, x.found j, full_key_eq→eq k j, f)

  find-add_all :
      (ps : List (KeyPair K)) (m m' : Map K) (j : FullKey K) {v : Bytes}
      → add_all w m ps ≡ ok m'
      → find j m ≡ some v
      → find j m' ≡ some v
  find-add_all [] m m' j h f = ground (arith, f)
  find-add_all (p ∷ ps) m m' j h f =
      let (m1, a, r) = >>=-eq-ok (add_pair w m p) _ h in
      find-add_all ps m1 m' j r (find-add_pair p m m1 j a f)

  -- no later pair comes with a key that is taken
  taken-add_all :
      (ps : List (KeyPair K)) (m m' : Map K) (j : FullKey K) {v : Bytes}
      → add_all w m ps ≡ ok m'
      → find j m ≡ some v
      → All (λ q. full_key w q ≢ ok j) ps
  taken-add_all [] m m' j h f = tt
  taken-add_all (p ∷ ps) m m' j h f =
      let (m1, a, r) = >>=-eq-ok (add_pair w m p) _ h in
      let (k, e, x) = add_pair-Extends lawful w m m1 p a in
      (
        (λ q. ground (arith, q, e, x.free, f)),
        taken-add_all ps m1 m' j r (find-add_pair p m m1 j a f),
      )

  -- Each pair has a full key, and no two pairs have the same.
  abbrev pub AllDistinct : List (KeyPair K) → Type 0
  AllDistinct [] = Unit {0}
  AllDistinct (p ∷ ps) = All (λ q. full_key w q ≢ full_key w p) ps × AllDistinct ps

  abbrev pub Finds : Map K → KeyPair K → Type 0
  Finds m p = (k : FullKey K) × (full_key w p ≡ ok k) × (find k m ≡ some p.value_data)

  add_all-AllDistinct :
      (ps : List (KeyPair K)) (m m' : Map K)
      → add_all w m ps ≡ ok m'
      → AllDistinct ps × All (Finds m') ps
  add_all-AllDistinct [] m m' h = (tt, tt)
  add_all-AllDistinct (p ∷ ps) m m' h =
      let (m1, a, r) = >>=-eq-ok (add_pair w m p) _ h in
      let (k, e, x) = add_pair-Extends lawful w m m1 p a in
      let f : find k m1 ≡ some p.value_data = rw (x.found k, full_key_eq_refl k) refl in
      let (distinct, finds) = add_all-AllDistinct ps m1 m' r in
      (
        (rw e (taken-add_all ps m1 m' k r f), distinct),
        ((k, e, find-add_all ps m1 m' k r f), finds),
      )

  leaving-eq-ok :
      {A : Type 0} (rest : Bytes) (r : Result PsbtError A) {a : A} {left : Bytes}
      → leaving rest r ≡ ok (a, left)
      → (left ≡ rest) × (r ≡ ok a)
  leaving-eq-ok rest (ok b) h = (ground arith, ground arith)
  leaving-eq-ok rest (err e) h = cc

  -- If a map that was written pair by pair is read back, then no two of its pairs have the same
  -- key, each value is found under the key of its pair, and what follows the map is left unread.
  pub parse-AllDistinct :
      (wire : IsWire w) (name : MapName) (ps : List (PairToWrite K)) (rest left : Bytes) (m : Map K)
      → All Fits ps
      → parse w name ((encode_each (encode_pair w) ps).written ++ (0 ∷ rest)) ≡ ok (m, left)
      → (left ≡ rest) × AllDistinct (map pair_read ps) × All (Finds m) (map pair_read ps)
  parse-AllDistinct wire name ps rest left m fs h =
      let (l, a) = leaving-eq-ok rest _ (sym (parse-encode_each wire name ps rest fs) ∙ h) in
      let (distinct, finds) = add_all-AllDistinct (map pair_read ps) (new name) m a in
      (l, distinct, finds)
