-- ===== src/CoreDomain/Errors.antt =====
-- packages/core-domain/src/errors.ts. A failure is its code; the text for humans and the
-- structured details are those of the call and are kept where a theorem reads them.
use assaybank.Prelude.{ℕ}

pub data DomainErrorCode : Type 0 where
  illegal_transition void_reason_required already_voided invalid_rule draw_infeasible :
      DomainErrorCode

-- The details that the model keeps are counts: those of an infeasible draw and of a refused
-- composition.
pub record DomainError : Type 0 where
  pub code : DomainErrorCode
  pub pick_count : ℕ
  pub eligible_count : ℕ
  pub pool_size : ℕ

abbrev pub domain_error : DomainErrorCode → DomainError
domain_error c = record { code = c; pick_count = 0; eligible_count = 0; pool_size = 0 }
