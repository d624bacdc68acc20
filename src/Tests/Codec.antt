-- ===== src/Tests/Codec.antt =====
-- A codec of claims in which every number is a run of one letter: a concrete one for which the laws of
-- tokens hold of all claims.
use Prim.Native.Nat.{ℕ, zero, suc, ◌+◌, compare, Ordering}
use Prim.Native.Char.{Char, code, nul, char, IsLt, IsScalar}
use Prim.Native.String.{String}
use autonomous_executive_ema.Base.{
  ◌≡◌, refl, ap, ◌∙◌, true, false, Option, none, some, List, [], ◌∷◌, arith, lacks, length, ◌==◌,
}
use autonomous_executive_ema.Access.Tokens.{Codec, Claims, Value, text, number, texts, is_ascii}
use autonomous_executive_ema.Access.Tokens.Roundtrip.{CodecLaws}

-- Numbers in unary.
abbrev letter : Char
letter = "a"

abbrev mark : Char
mark = "b"

pub put : ℕ → String → String
put zero s = String.◌∷◌ mark s
put (suc n) s = String.◌∷◌ letter (put n s)

put_all : List ℕ → String
put_all [] = ""
put_all (n ∷ ns) = put n (put_all ns)

pub take_all : ℕ → String → List ℕ
take_all n String.[] = []
take_all n (String.◌∷◌ c s) = elim (code c == 97) [
  | true ↦ take_all (suc n) s
  | false ↦ n ∷ take_all 0 s
]

take_all-put : (m n : ℕ) (s : String) → take_all m (put n s) ≡ (n + m) ∷ take_all 0 s
unfolding take_all put
take_all-put m zero s = ap (λ k. k ∷ take_all 0 s) (omega arith)
take_all-put m (suc n) s = take_all-put (suc m) n s ∙ ap (λ k. k ∷ take_all 0 s) (omega arith)

take_all-put_all : (ns : List ℕ) → take_all 0 (put_all ns) ≡ ns
unfolding put_all take_all
take_all-put_all [] = refl
take_all-put_all (n ∷ ns) =
    take_all-put 0 n (put_all ns)
    ∙ (ap (λ k. k ∷ take_all 0 (put_all ns)) (omega arith)
        ∙ ap (λ rest. n ∷ rest) (take_all-put_all ns))

put-plain : (n : ℕ) (s : String) → lacks b'.' s ≡ true → lacks b'.' (put n s) ≡ true
unfolding put lacks
put-plain zero s h = h
put-plain (suc n) s h = put-plain n s h

put-ascii : (n : ℕ) (s : String) → is_ascii s ≡ true → is_ascii (put n s) ≡ true
unfolding put is_ascii
put-ascii zero s h = h
put-ascii (suc n) s h = put-ascii n s h

put_all-ascii : (ns : List ℕ) → is_ascii (put_all ns) ≡ true
unfolding put_all is_ascii
put_all-ascii [] = refl
put_all-ascii (n ∷ ns) = put-ascii n (put_all ns) (put_all-ascii ns)

put_all-plain : (ns : List ℕ) → lacks b'.' (put_all ns) ≡ true
unfolding put_all put lacks
put_all-plain [] = refl
put_all-plain (n ∷ ns) = put-plain n (put_all ns) (put_all-plain ns)

-- Characters from their codes.
abbrev TwoLt : Ordering → Ordering → Type 0
TwoLt Ordering.lt q = IsLt q
TwoLt Ordering.eq _ = ⊥
TwoLt Ordering.gt _ = ⊥

abbrev Scalar : Ordering → Ordering → Ordering → Type 0
Scalar Ordering.lt _ _ = Unit
Scalar Ordering.eq p q = TwoLt p q
Scalar Ordering.gt p q = TwoLt p q

find_lt : (q : Ordering) → Option (IsLt q)
find_lt Ordering.lt = some tt
find_lt Ordering.eq = none
find_lt Ordering.gt = none

find_two : (p q : Ordering) → Option (TwoLt p q)
find_two Ordering.lt q = find_lt q
find_two Ordering.eq q = none
find_two Ordering.gt q = none

find_scalar : (o p q : Ordering) → Option (Scalar o p q)
find_scalar Ordering.lt p q = some tt
find_scalar Ordering.eq p q = find_two p q
find_scalar Ordering.gt p q = find_two p q

find_lt-some : (q : Ordering) (h : IsLt q) → find_lt q ≡ some h
unfolding find_lt
find_lt-some Ordering.lt h = refl
find_lt-some Ordering.eq h = elim h [ ]
find_lt-some Ordering.gt h = elim h [ ]

find_two-some : (p q : Ordering) (h : TwoLt p q) → find_two p q ≡ some h
unfolding find_two
find_two-some Ordering.lt q h = find_lt-some q h
find_two-some Ordering.eq q h = elim h [ ]
find_two-some Ordering.gt q h = elim h [ ]

find_scalar-some : (o p q : Ordering) (h : Scalar o p q) → find_scalar o p q ≡ some h
unfolding find_scalar
find_scalar-some Ordering.lt p q h = refl
find_scalar-some Ordering.eq p q h = find_two-some p q h
find_scalar-some Ordering.gt p q h = find_two-some p q h

decoded : (n : ℕ) → Option (IsScalar n) → Char
decoded n none = nul
decoded n (some p) = char n p

chr : ℕ → Char
chr n = decoded n (find_scalar (compare n 55296) (compare 57343 n) (compare n 1114112))

chr-code : (c : Char) → chr (code c) ≡ c
unfolding chr decoded
chr-code (char n p) =
    ap (decoded n) (find_scalar-some (compare n 55296) (compare 57343 n) (compare n 1114112) p)

-- Texts, values and claims as numbers, each before what follows it.
put_text : String → List ℕ → List ℕ
put_text String.[] ns = 0 ∷ ns
put_text (String.◌∷◌ c s) ns = suc (code c) ∷ put_text s ns

get_text : List ℕ → String × List ℕ
get_text [] = ("", [])
get_text (zero ∷ ns) = ("", ns)
get_text (suc n ∷ ns) = let (s, rest) = get_text ns in (String.◌∷◌ (chr n) s, rest)

get_text-put : (s : String) (ns : List ℕ) → get_text (put_text s ns) ≡ (s, ns)
unfolding get_text put_text
get_text-put String.[] ns = refl
get_text-put (String.◌∷◌ c s) ns =
    ap (λ (r : String × List ℕ). (String.◌∷◌ (chr (code c)) r.0, r.1)) (get_text-put s ns)
    ∙ ap (λ d. (String.◌∷◌ d s, ns)) (chr-code c)

put_texts : List String → List ℕ → List ℕ
put_texts [] ns = ns
put_texts (t ∷ ts) ns = put_text t (put_texts ts ns)

get_texts : ℕ → List ℕ → List String × List ℕ
get_texts zero ns = ([], ns)
get_texts (suc k) ns =
    let (t, rest) = get_text ns in let (ts, last) = get_texts k rest in (t ∷ ts, last)

get_texts-put :
    (ts : List String) (ns : List ℕ) → get_texts (length ts) (put_texts ts ns) ≡ (ts, ns)
unfolding get_texts put_texts
get_texts-put [] ns = refl
get_texts-put (t ∷ ts) ns = rw (get_text-put t (put_texts ts ns), get_texts-put ts ns) refl

put_value : Value → List ℕ → List ℕ
put_value (text s) ns = 0 ∷ put_text s ns
put_value (number n) ns = 1 ∷ n ∷ ns
put_value (texts l) ns = 2 ∷ length l ∷ put_texts l ns

get_value : List ℕ → Value × List ℕ
get_value (zero ∷ ns) = let (s, rest) = get_text ns in (text s, rest)
get_value (suc zero ∷ n ∷ ns) = (number n, ns)
get_value (suc (suc k) ∷ n ∷ ns) = let (l, rest) = get_texts n ns in (texts l, rest)
get_value ns = (number 0, ns)

get_value-put : (v : Value) (ns : List ℕ) → get_value (put_value v ns) ≡ (v, ns)
unfolding get_value put_value
get_value-put (text s) ns = rw (get_text-put s ns) refl
get_value-put (number n) ns = refl
get_value-put (texts l) ns = rw (get_texts-put l ns) refl

put_claims : Claims → List ℕ → List ℕ
put_claims [] ns = ns
put_claims ((k, v) ∷ c) ns = put_text k (put_value v (put_claims c ns))

get_claims : ℕ → List ℕ → Claims × List ℕ
get_claims zero ns = ([], ns)
get_claims (suc n) ns =
    let (k, rest) = get_text ns in
    let (v, more) = get_value rest in let (c, last) = get_claims n more in ((k, v) ∷ c, last)

get_claims-put : (c : Claims) (ns : List ℕ) → get_claims (length c) (put_claims c ns) ≡ (c, ns)
unfolding get_claims put_claims
get_claims-put [] ns = refl
get_claims-put ((k, v) ∷ c) ns =
    rw
      (
        get_text-put k (put_value v (put_claims c ns)),
        get_value-put v (put_claims c ns),
        get_claims-put c ns,
      )
      refl

pub dumps : Claims → String
dumps c = put_all (length c ∷ put_claims c [])

pub read_claims : List ℕ → Option Claims
read_claims [] = none
read_claims (n ∷ ns) = some (get_claims n ns).0

abbrev pub codec : Codec
codec = record {
  dumps = dumps;
  loads = λ s. read_claims (take_all 0 s);
  sign = λ input secret. put 3 "";
}

loads-dumps : (c : Claims) → read_claims (take_all 0 (dumps c)) ≡ some c
unfolding dumps read_claims
loads-dumps c =
    ap read_claims (take_all-put_all (length c ∷ put_claims c []))
    ∙ ap (λ (r : Claims × List ℕ). some r.0) (get_claims-put c [])

pub codec_laws : CodecLaws codec
unfolding dumps lacks is_ascii
codec_laws = record {
  loads-dumps = loads-dumps;
  dumps-plain = λ c. put_all-plain (length c ∷ put_claims c []);
  dumps-ascii = λ c. put_all-ascii (length c ∷ put_claims c []);
  sign-plain = λ input secret. put-plain 3 "" refl;
  sign-ascii = λ input secret. put-ascii 3 "" refl;
}
