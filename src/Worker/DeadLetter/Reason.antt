-- ===== src/Worker/DeadLetter/Reason.antt =====
-- How long a stored reason can be.
use assaybank.Prelude.{
  ◌≤◌, ◌<◌, ◌≡◌, refl, true, false, length, take, length-append, length-take, leb, arith,
}
use assaybank.Worker.DeadLetter.{
  Thrown, max_failed_reason_chars, truncation_mark, raw_reason, truncate_reason,
}

-- A reason that is longer than 512 characters is stored with 524, since the mark comes after them; and
-- every other is stored as it is.
pub length-truncate_reason :
    (thrown : Thrown)
    → (max_failed_reason_chars < length (raw_reason thrown) → length (truncate_reason thrown) ≡ 524)
      × (length (raw_reason thrown) ≤ max_failed_reason_chars
          → truncate_reason thrown ≡ raw_reason thrown)
unfolding truncate_reason
length-truncate_reason thrown = (
  λ h.
      let e : leb (length (raw_reason thrown)) max_failed_reason_chars ≡ false = ground arith in
      rw e (
        omega (
          arith,
          length-append (take max_failed_reason_chars (raw_reason thrown)) truncation_mark,
          length-take max_failed_reason_chars (raw_reason thrown),
        )),
  λ h.
      let e : leb (length (raw_reason thrown)) max_failed_reason_chars ≡ true = ground arith in
      rw e refl,
)
