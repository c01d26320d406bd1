-- ===== src/Json/Inside.antt =====
-- src/core/json_min.c: what a lookup finds lies inside the buffer that was searched.
use obicall.Common.{
  ℕ, zero, suc, ◌+◌, ◌≤◌, ◌<◌, ◌≡◌, refl, subst, inl, inr, Bool, true, false, List, some, arith,
  length, Bool-cases, Option-cases,
}
use obicall.Json.Scan.{spaces, scan_value, skip_string}
use obicall.Json.Bounds.{spaces_bounds, scan_value_bounds}
use obicall.Json.Lookup.{
  JsonSpan, Member, span_from_value, read_value, read_member, behind_comma, member_span, matches,
  object_loop, object_find,
}

-- The span lies in a buffer of `n` bytes.
abbrev pub SpanInside : ℕ → JsonSpan → Type 0
SpanInside n span = span.off + span.len ≤ n

pub span_from_value-SpanInside :
    (n first end : ℕ) (is_string : Bool)
    → first < end
    → end ≤ n
    → (is_string ≡ true → first + 1 < end)
    → SpanInside n (span_from_value first end is_string)
unfolding span_from_value
span_from_value-SpanInside n first end true some_byte inside closed =
    let more = closed refl in omega arith
span_from_value-SpanInside n first end false some_byte inside closed = omega arith

-- What is known of a member that was read.
record IsMember (n : ℕ) (m : Member) : Type 0 where
  starts : m.value_start < m.value_end
  ends : m.value_end ≤ n
  closed : m.is_str ≡ true → m.value_start + 1 < m.value_end

read_value-IsMember :
    (json : List ℕ) (pos key_end : ℕ) (m : Member)
    → read_value json pos key_end ≡ some m
    → IsMember (length json) m
unfolding read_value
read_value-IsMember json pos key_end m h =
    let start = spaces json (spaces json key_end + 1) in
    elim (Option-cases (scan_value json start)) [
      | inl missing ↦ ground (arith, missing)
      | inr ((end, is_str), found) ↦
          let (some_byte, inside, closed) = scan_value_bounds json start end is_str found in
          let (more, within) = spaces_bounds json start in
          let v_start : m.value_start ≡ start = ground (arith, found) in
          let v_end : m.value_end ≡ end = ground (arith, found) in
          let v_str : m.is_str ≡ is_str = ground (arith, found) in
          record {
            starts = omega arith;
            ends = omega arith;
            closed = λ s. let far = closed (cc (s, v_str)) in omega arith;
          }
    ]

read_member-IsMember :
    (json : List ℕ) (pos : ℕ) (m : Member)
    → read_member json pos ≡ some m
    → IsMember (length json) m
unfolding read_member
read_member-IsMember json pos m h = elim (Option-cases (skip_string json (spaces json pos))) [
  | inl missing ↦ ground (arith, missing)
  | inr (key_end, found) ↦
      read_value-IsMember json (spaces json pos) key_end m (ground (arith, found))
]

object_loop-SpanInside :
    (fuel : ℕ) (json key : List ℕ) (pos : ℕ) (span : JsonSpan)
    → object_loop fuel json key pos ≡ some span
    → SpanInside (length json) span
unfolding object_loop
object_loop-SpanInside zero json key pos span h = absurd cc
object_loop-SpanInside (suc fuel) json key pos span h = elim (Option-cases (read_member json pos)) [
  | inl missing ↦ ground (arith, missing)
  | inr (m, found) ↦ elim (Bool-cases (matches json key m)) [
    | inl here ↦
        let v = read_member-IsMember json pos m found in
        let e : member_span m ≡ span = ground (arith, found, here) in
        subst (SpanInside (length json)) e (
          span_from_value-SpanInside (length json) m.value_start m.value_end m.is_str v.starts
            v.ends v.closed)
    | inr other ↦ elim (Option-cases (behind_comma json m.value_end)) [
      | inl last ↦ ground (arith, found, other, last)
      | inr (next, comma) ↦
          object_loop-SpanInside fuel json key next span (ground (arith, found, other, comma))
    ]
  ]
]

-- What is found of an object lies inside its text.
pub object_find-SpanInside :
    (json key : List ℕ) (span : JsonSpan)
    → object_find json key ≡ some span
    → SpanInside (length json) span
unfolding object_find
object_find-SpanInside json key span h =
    object_loop-SpanInside (length json) json key (spaces json 0 + 1) span (ground arith)
