-- ===== src/FastNoise/Codec/Reads.antt =====
-- fastnoise/src/runtime.rs: what each read takes from the bytes ahead, and what each write appends.
use braids_rs.Base.{
  All, List, [], ap, append-nil, append_assoc, arith, drop, length, length-append, refl, suc, take,
  zero, ℕ, ◌++◌, ◌/◌, ◌<◌, ◌^◌, ◌∙◌, ◌∷◌, ◌≡◌,
}
use braids_rs.Error.{ok, BraidResult}
use braids_rs.FastNoise.Codec.{
  to_le_bytes, from_le_bytes, PayloadReader, Read, ◌>>=◌, continue, return, read_exact, read_u16,
  read_u32, read_times, lift,
}

-- The reader that has passed `front` and has `rest` ahead.
abbrev pub reader_at : List ℕ → List ℕ → PayloadReader
reader_at front rest = record { bytes = front ++ rest; offset = length front }

-- The read takes exactly the bytes `bs`, whatever stands around them, and answers `a`.
unfoldable pub Reads : {A : Type 0} → Read A → List ℕ → A → Type 0
Reads m bs a =
    (front rest : List ℕ) → m (reader_at front (bs ++ rest)) ≡ ok (a, reader_at (front ++ bs) rest)

pub Reads-return : {A : Type 0} (a : A) → Reads (return a) [] a
unfolding Reads
Reads-return a front rest = ground (arith, append-nil front)

pub Reads-bind :
    {A B : Type 0} (m : Read A) (f : A → Read B) (bs cs : List ℕ) (a : A) (b : B)
    → Reads m bs a
    → Reads (f a) cs b
    → Reads (m >>= f) (bs ++ cs) b
unfolding Reads
Reads-bind m f bs cs a b hm hf front rest =
    ap (λ ahead. (m >>= f) (reader_at front ahead)) (append_assoc bs cs rest)
    ∙ ap (λ r. continue r f) (hm front (cs ++ rest))
    ∙ hf (front ++ bs) rest
    ∙ ap (λ past. ok (b, reader_at past rest)) (append_assoc front bs cs)

-- A bind whose last part only builds the answer.
pub Reads-map :
    {A B : Type 0} (m : Read A) (f : A → B) (bs : List ℕ) (a : A)
    → Reads m bs a
    → Reads (m >>= λ x. return (f x)) bs (f a)
unfolding Reads
Reads-map m f bs a h front rest = ap (λ r. continue r (λ x. return (f x))) (h front rest)

abbrev pub concat_map : {A : Type 0} → (A → List ℕ) → List A → List ℕ
concat_map enc [] = []
concat_map enc (a ∷ vals) = enc a ++ concat_map enc vals

take-append : (xs ys : List ℕ) → take (length xs) (xs ++ ys) ≡ xs
take-append [] ys = refl
take-append (x ∷ xs) ys = ap (◌∷◌ x) (take-append xs ys)

drop-append : (xs ys : List ℕ) → drop (length xs) (xs ++ ys) ≡ ys
drop-append [] ys = refl
drop-append (x ∷ xs) ys = drop-append xs ys

pub Reads-read_exact : (n : ℕ) (bs : List ℕ) → length bs ≡ n → Reads (read_exact n) bs bs
unfolding Reads read_exact
Reads-read_exact n bs h front rest = ground (
  arith,
  length-append front (bs ++ rest),
  length-append bs rest,
  length-append front bs,
  drop-append front (bs ++ rest),
  take-append bs rest,
  append_assoc front bs rest,
)

pub length-to_le_bytes : (w v : ℕ) → length (to_le_bytes w v) ≡ w
length-to_le_bytes zero v = refl
length-to_le_bytes (suc w) v = ap suc (length-to_le_bytes w (v / 256))

Reads-value :
    (n v : ℕ)
    → from_le_bytes (to_le_bytes n v) ≡ v
    → Reads (read_exact n >>= λ bs. return (from_le_bytes bs)) (to_le_bytes n v) v
unfolding Reads
Reads-value n v e front rest =
    ground (arith, Reads-read_exact n (to_le_bytes n v) (length-to_le_bytes n v) front rest, e)

pub Reads-read_u16 : (v : ℕ) → v < 2 ^ 16 → Reads read_u16 (to_le_bytes 2 v) v
unfolding read_u16
Reads-read_u16 v h = Reads-value 2 v (omega arith)

pub Reads-read_u32 : (v : ℕ) → v < 2 ^ 32 → Reads read_u32 (to_le_bytes 4 v) v
unfolding read_u32
Reads-read_u32 v h = Reads-value 4 v (omega arith)

-- `read_times` reads what a writer of single values appends one by one.
pub Reads-read_times :
    {A : Type 0} (m : Read A) (enc : A → List ℕ) (P : A → Type 0) (vals : List A)
    → ((a : A) → P a → Reads m (enc a) a)
    → All P vals
    → Reads (read_times (length vals) m) (concat_map enc vals) vals
unfolding read_times
Reads-read_times m enc P [] h ok_all = Reads-return []
Reads-read_times m enc P (a ∷ vals) h ok_all =
    Reads-bind m _ (enc a) (concat_map enc vals) a (a ∷ vals) (h a ok_all.0) (
      Reads-map (read_times (length vals) m) (λ rest. a ∷ rest) (concat_map enc vals) vals
        (Reads-read_times m enc P vals h ok_all.1))

pub Reads-tag :
    {A : Type 0} (dec : ℕ → BraidResult A) (tag : ℕ) (a : A)
    → dec tag ≡ ok a
    → tag < 2 ^ 32
    → Reads (read_u32 >>= λ v. lift (dec v)) (to_le_bytes 4 tag) a
unfolding Reads
Reads-tag dec tag a e h front rest =
    ap (λ r. continue r (λ v. lift (dec v))) (Reads-read_u32 tag h front rest)
    ∙ ap (λ d. lift d (reader_at (front ++ to_le_bytes 4 tag) rest)) e
