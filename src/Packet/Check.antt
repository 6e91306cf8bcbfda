-- ===== src/Packet/Check.antt =====
-- src/pipeline.rs: `CompiledPlan::validate_packet` decides whether a packet fits a plan.
use braids_rs.Base.{
  All, All-get_elem?, Bool-cases, List, Option-cases, [], ap, arith, inl, inr, none, refl, some,
  true, ℕ, ◌*◌, ◌<◌, ◌↔◌, ◌∙◌, ◌∷◌, ◌≡◌, ◌⊎◌,
}
use braids_rs.Error.{ok, >>=-eq-ok}
use braids_rs.Pipeline.Kinds.{same_kind, BufferLayout, per_query_scalar, per_query_vector, dynamic}
use braids_rs.Pipeline.{
  BufferData, BufferSpec, CompiledPlan, data_kind, data_len, find_spec, validate_len, usize_mod,
  clear_data,
}
use braids_rs.Packet.{
  JobPacket, PacketBuffer, check_buffer, check_buffers, validate_packet, clear_for_reuse,
  new_packet,
}
use braids_rs.Packet.Invariant.{IsValid, contents}
use braids_rs.Packet.Views.{contents-found, clear_for_reuse_lem}

-- The length that a layout asks for; a product that does not fit in a `usize` is no length.
abbrev pub FitsLayout : BufferLayout → ℕ → ℕ → Type 0
FitsLayout per_query_scalar query_count len = len ≡ query_count
FitsLayout (per_query_vector width) query_count len =
    (len ≡ query_count * width) × (query_count * width < usize_mod)
FitsLayout dynamic query_count len = Unit {0}

-- An undeclared buffer is empty; a declared one has the declared kind and length.
abbrev pub Fits : List BufferSpec → ℕ → PacketBuffer → Type 0
Fits specs query_count b =
    ((find_spec b.slot specs ≡ none) × (data_len b.contents ≡ 0))
    ⊎ ((spec : BufferSpec) × (find_spec b.slot specs ≡ some spec)
        × (same_kind spec.element_kind (data_kind b.contents) ≡ true)
        × FitsLayout spec.layout query_count (data_len b.contents))

layout_sound :
    (spec : BufferSpec) (l : BufferLayout) (query_count len : ℕ)
    → spec.layout ≡ l
    → validate_len spec query_count len ≡ ok tt
    → FitsLayout l query_count len
unfolding validate_len
layout_sound spec per_query_scalar query_count len e h = ground arith
layout_sound spec (per_query_vector width) query_count len e h = ground arith
layout_sound spec dynamic query_count len e h = tt

layout_complete :
    (spec : BufferSpec) (l : BufferLayout) (query_count len : ℕ)
    → spec.layout ≡ l
    → FitsLayout l query_count len
    → validate_len spec query_count len ≡ ok tt
unfolding validate_len
layout_complete spec per_query_scalar query_count len e h = ground arith
layout_complete spec (per_query_vector width) query_count len e h = ground arith
layout_complete spec dynamic query_count len e h = ground arith

-- `validate_len` accepts exactly the length that the declared layout asks for.
pub validate_len-FitsLayout :
    (spec : BufferSpec) (query_count len : ℕ)
    → (validate_len spec query_count len ≡ ok tt) ↔ FitsLayout spec.layout query_count len
validate_len-FitsLayout spec query_count len = (
  layout_sound spec spec.layout query_count len refl,
  layout_complete spec spec.layout query_count len refl,
)

check_buffer-Fits :
    (specs : List BufferSpec) (query_count : ℕ) (b : PacketBuffer)
    → (check_buffer specs query_count b ≡ ok tt) ↔ Fits specs query_count b
unfolding check_buffer
check_buffer-Fits specs query_count b = (sound, complete)
  where
    sound : check_buffer specs query_count b ≡ ok tt → Fits specs query_count b
    sound e = elim (Option-cases (find_spec b.slot specs)) [
      | inl q ↦ inl (q, ground arith)
      | inr (spec, q) ↦ elim (Bool-cases (same_kind spec.element_kind (data_kind b.contents))) [
        | inl s ↦ inr (
          spec,
          q,
          s,
          (validate_len-FitsLayout spec query_count (data_len b.contents)).0 (ground arith),
        )
        | inr s ↦ absurd (ground arith)
      ]
    ]

    complete : Fits specs query_count b → check_buffer specs query_count b ≡ ok tt
    complete (inl (q, e)) = ground arith
    complete (inr (spec, q, s, f)) =
        ground (arith, (validate_len-FitsLayout spec query_count (data_len b.contents)).1 f)

check_buffers_sound :
    (specs : List BufferSpec) (query_count : ℕ) (bs : List PacketBuffer)
    → check_buffers specs query_count bs ≡ ok tt
    → All (Fits specs query_count) bs
unfolding check_buffers
check_buffers_sound specs query_count [] e = tt
check_buffers_sound specs query_count (b ∷ bs) e =
    let (u, p, q) = >>=-eq-ok (check_buffer specs query_count b) _ e in
    ((check_buffer-Fits specs query_count b).0 p, check_buffers_sound specs query_count bs q)

check_buffers_complete :
    (specs : List BufferSpec) (query_count : ℕ) (bs : List PacketBuffer)
    → All (Fits specs query_count) bs
    → check_buffers specs query_count bs ≡ ok tt
unfolding check_buffers
check_buffers_complete specs query_count [] a = refl
check_buffers_complete specs query_count (b ∷ bs) a =
    rw ((check_buffer-Fits specs query_count b).1 a.0)
      (check_buffers_complete specs query_count bs a.1)

-- `validate_packet` accepts a packet exactly if each of its buffers fits the plan: an undeclared one is
-- empty, and a declared one has the kind and the length of its first declaration.
pub validate_packet-Fits :
    {M : Type 0} (plan : CompiledPlan M) (p : JobPacket)
    → (validate_packet plan p ≡ ok tt) ↔ All (Fits plan.pipeline.buffers p.query_count) p.buffers
unfolding validate_packet
validate_packet-Fits plan p = (
  check_buffers_sound plan.pipeline.buffers p.query_count p.buffers,
  check_buffers_complete plan.pipeline.buffers p.query_count p.buffers,
)

scalar_fit : (l : BufferLayout) (n len : ℕ) → l ≡ per_query_scalar → FitsLayout l n len → len ≡ n
scalar_fit per_query_scalar n len e f = f
scalar_fit (per_query_vector w) n len e f = cc
scalar_fit dynamic n len e f = cc

length-clear : (d : BufferData) → data_len (clear_data d) ≡ 0
length-clear d = ground arith

-- A packet that has a buffer for a slot declared with one element per query is refused, once it is
-- cleared, for any number of queries but 0; a new packet, which has no such buffer, is accepted.
pub validate_packet_recycled :
    {M : Type 0} (plan : CompiledPlan M) (p : JobPacket) (slot n : ℕ) (spec : BufferSpec)
    (d : BufferData)
    → IsValid p
    → contents p slot ≡ some d
    → find_spec slot plan.pipeline.buffers ≡ some spec
    → spec.layout ≡ per_query_scalar
    → 0 < n
    → ¬ (validate_packet plan (record (clear_for_reuse p) { query_count = n }) ≡ ok tt)
      × (validate_packet plan (record new_packet { query_count = n }) ≡ ok tt)
unfolding validate_packet new_packet
validate_packet_recycled plan p slot n spec d h at found scalar pos = (refused, refl)
  where
    not_fits :
        (b : PacketBuffer)
        → Fits plan.pipeline.buffers n b
        → b.slot ≡ slot
        → data_len b.contents ≡ 0
        → ⊥
    not_fits b (inl (q, z)) name empty = ground arith
    not_fits b (inr (spec', q, s, f)) name empty =
        let same : spec' ≡ spec = ground arith in
        omega (
          arith,
          scalar_fit spec'.layout n (data_len b.contents) (ap (λ x. x.layout) same ∙ scalar) f,
        )

    refused : check_buffers plan.pipeline.buffers n (clear_for_reuse p).buffers ≡ ok tt → ⊥
    refused e =
        let (v, z, l) = clear_for_reuse_lem p h in
        let (i, b, there, name, holds) =
          contents-found (clear_for_reuse p) slot (clear_data d) v (rw (l slot, at)) in
        let fits =
          All-get_elem? (Fits plan.pipeline.buffers n) (clear_for_reuse p).buffers i b
            (check_buffers_sound plan.pipeline.buffers n (clear_for_reuse p).buffers e) there in
        not_fits b fits name (rw holds (length-clear d))
