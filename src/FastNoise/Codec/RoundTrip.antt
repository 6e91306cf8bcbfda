-- ===== src/FastNoise/Codec/RoundTrip.antt =====
-- fastnoise/src/runtime.rs: a payload that is encoded decodes to itself.
use braids_rs.Base.{
  All, List, [], ap, append-nil, append_assoc, arith, length, refl, sym, ℕ, ◌%◌, ◌++◌, ◌<◌, ◌^◌,
  ◌∙◌, ◌∷◌, ◌≡◌,
}
use mathlib.Core.List.{foldl}
use mathlib.Core.Path.{subst}
use braids_rs.Error.{BraidResult, ok, err}
use braids_rs.Pipeline.{KernelSpec}
use braids_rs.Pipeline.Kinds.{whole_batch}
use braids_rs.Scratch.{PlannerScratch, reset_planner_scratch, clear_vec}
use braids_rs.FastNoise.Model.{FastNoiseKernel, GraphDimension, d2, d3, kind}
use braids_rs.FastNoise.Codec.{to_le_bytes, read_u16, read_u32, read_times, PayloadReader}
use braids_rs.FastNoise.Codec.Tags.{encode_combine_op}
use braids_rs.FastNoise.Codec.Payloads.{
  CombinePayload, KernelPayload, encode, decode, write_slots, write_u32s, read_position_slots,
  write_combine, read_combine, combine_payload, encoded,
}
use braids_rs.FastNoise.Codec.Reads.{
  Reads, Reads-bind, Reads-map, Reads-read_u16, Reads-read_u32, Reads-read_times, concat_map,
}
use braids_rs.FastNoise.Codec.TagReads.{Reads-combine_op}

abbrev pub IsSlot : ℕ → Type 0
IsSlot v = v < 2 ^ 16

abbrev pub IsWord : ℕ → Type 0
IsWord v = v < 2 ^ 32

-- The `N` of the payloads of a dimension.
abbrev pub axes : GraphDimension → ℕ
axes d2 = 2
axes d3 = 3

abbrev pub slot_bytes : List ℕ → List ℕ
slot_bytes slots = concat_map (to_le_bytes 2) slots

abbrev pub word_bytes : List ℕ → List ℕ
word_bytes vals = concat_map (to_le_bytes 4) vals

written_one_by_one :
    (enc : ℕ → List ℕ) (w vals : List ℕ)
    → foldl (λ v a. v ++ enc a) w vals ≡ w ++ concat_map enc vals
written_one_by_one enc w [] = sym (append-nil w)
written_one_by_one enc w (v ∷ vals) =
    written_one_by_one enc (w ++ enc v) vals ∙ append_assoc w (enc v) (concat_map enc vals)

clear_vec_empty : (xs : List ℕ) → clear_vec xs ≡ []
clear_vec_empty [] = refl
clear_vec_empty (x ∷ xs) = refl

-- What a payload decodes to is what was encoded, as far as `Same` tells.
abbrev pub DecodesBack : {A : Type 0} → KernelPayload A → A → (A → Type 0) → Type 0
DecodesBack {A} K p Same =
    (k : FastNoiseKernel) (s : PlannerScratch)
    → (spec : KernelSpec) × ((encode K p s).0 ≡ ok spec)
      × (spec.kind_id ≡ kind K.payload_kind)
      × ((q : A) × (decode K k spec.payload ≡ ok q) × Same q)

module _ {A : Type 0} (K : KernelPayload A) (p : A) (bytes : List ℕ) where
  pub encode_written :
      ((w : List ℕ) → K.encode_into p w ≡ ok (w ++ bytes))
      → (s : PlannerScratch)
      → (encode K p s).0
        ≡ ok (record {
          kind_id = kind K.payload_kind;
          payload = bytes;
          bindings = [];
          dispatch = whole_batch;
        })
  unfolding encode reset_planner_scratch
  encode_written written s =
      ap (λ e. (encoded K e (reset_planner_scratch s)).0)
        (written (clear_vec s.bytes) ∙ ap (λ w. ok (w ++ bytes)) (clear_vec_empty s.bytes))

  pub decodes_back :
      (q : A) (Same : A → Type 0)
      → ((w : List ℕ) → K.encode_into p w ≡ ok (w ++ bytes))
      → ((k : FastNoiseKernel) → Reads (K.decode_from k) bytes q)
      → Same q
      → DecodesBack K p Same
  unfolding encode decode Reads reset_planner_scratch
  decodes_back q Same written reads same k s = (
    record {
      kind_id = kind K.payload_kind;
      payload = bytes;
      bindings = [];
      dispatch = whole_batch;
    },
    encode_written written s,
    refl,
    (
      q,
      ap decoded_as (
          ap (λ b. K.decode_from k (record { bytes = b; offset = 0 })) (sym (append-nil bytes))
          ∙ reads k [] []),
      same,
    ),
  )
    where
      decoded_as : BraidResult (A × PayloadReader) → BraidResult A
      decoded_as r = elim r [ err e ↦ err e | ok (a, after) ↦ ok a ]

pub write_slots_lem : (w slots : List ℕ) → write_slots w slots ≡ w ++ slot_bytes slots
write_slots_lem w slots = written_one_by_one (to_le_bytes 2) w slots

write_u32s_lem : (w vals : List ℕ) → write_u32s w vals ≡ w ++ word_bytes vals
write_u32s_lem w vals = written_one_by_one (to_le_bytes 4) w vals

mod_small : (n : ℕ) → n < 2 ^ 32 → n % 2 ^ 32 ≡ n
mod_small n h = omega arith

pub Reads-slots :
    (slots : List ℕ) (n : ℕ)
    → length slots ≡ n
    → All IsSlot slots
    → Reads (read_position_slots n) (slot_bytes slots) slots
unfolding read_position_slots
Reads-slots slots n h fits =
    subst (λ k. Reads (read_times k read_u16) (slot_bytes slots) slots) h
      (Reads-read_times read_u16 (to_le_bytes 2) IsSlot slots Reads-read_u16 fits)

module _ (p : CombinePayload) where
  abbrev pub combine_bytes : List ℕ
  combine_bytes =
      to_le_bytes 4 (encode_combine_op p.op)
      ++ (to_le_bytes 4 (length p.inputs)
          ++ (slot_bytes p.inputs
              ++ (to_le_bytes 2 p.output
                  ++ (to_le_bytes 4 (length p.params) ++ word_bytes p.params))))

  pub write_combine_lem :
      length p.inputs < 2 ^ 32
      → length p.params < 2 ^ 32
      → (w : List ℕ) → write_combine p w ≡ w ++ combine_bytes
  unfolding write_combine
  write_combine_lem hi hp w = simp (
    mod_small (length p.inputs) hi,
    mod_small (length p.params) hp,
    write_slots_lem,
    write_u32s_lem,
    append_assoc,
  )

  pub Reads-read_combine :
      length p.inputs < 2 ^ 32
      → All IsSlot p.inputs
      → IsSlot p.output
      → length p.params < 2 ^ 32
      → All IsWord p.params
      → Reads read_combine combine_bytes p
  unfolding read_combine
  Reads-read_combine hi inputs output hp params =
      Reads-bind _ _ (to_le_bytes 4 (encode_combine_op p.op)) _ p.op p (Reads-combine_op p.op) (
        Reads-bind read_u32 _ (to_le_bytes 4 (length p.inputs)) _ (length p.inputs) p
          (Reads-read_u32 (length p.inputs) hi)
          (Reads-bind _ _ (slot_bytes p.inputs) _ p.inputs p
            (Reads-read_times read_u16 (to_le_bytes 2) IsSlot p.inputs Reads-read_u16 inputs)
            (Reads-bind read_u16 _ (to_le_bytes 2 p.output) _ p.output p
              (Reads-read_u16 p.output output)
              (Reads-bind read_u32 _ (to_le_bytes 4 (length p.params)) _ (length p.params) p
                (Reads-read_u32 (length p.params) hp)
                (Reads-map _ _ (word_bytes p.params) p.params (
                  Reads-read_times read_u32 (to_le_bytes 4) IsWord p.params Reads-read_u32
                    params))))))

  -- A combine payload of slots and parameters in range decodes to itself, under the kind `Combine`.
  pub decode-encode_combine :
      length p.inputs < 2 ^ 32
      → All IsSlot p.inputs
      → IsSlot p.output
      → length p.params < 2 ^ 32
      → All IsWord p.params
      → DecodesBack combine_payload p (λ q. q ≡ p)
  decode-encode_combine hi inputs output hp params =
      decodes_back combine_payload p combine_bytes p (λ q. q ≡ p)
        (λ w. ap ok (write_combine_lem hi hp w))
        (λ k. Reads-read_combine hi inputs output hp params) refl
