-- ===== src/Cloud/Errors.antt =====
-- apps/api/src/service.ts: the errors of the service, and what a call comes to.
use quorvel.Common.{ℕ, String}

pub record ApiError : Type 0 where
  pub message : String
  pub status_code : ℕ
  pub code : String

abbrev pub auth_error : String → ApiError
auth_error message = record { message = message; status_code = 401; code = "unauthorized" }

abbrev pub bad_request : String → ApiError
bad_request message = record { message = message; status_code = 400; code = "bad_request" }

abbrev pub quota_error : String → ApiError
quota_error message = record { message = message; status_code = 402; code = "quota_exceeded" }

abbrev pub conflict_error : String → ApiError
conflict_error message = record {
  message = message;
  status_code = 409;
  code = "invalid_transition";
}

abbrev pub not_found : String → ApiError
not_found message = record { message = message; status_code = 404; code = "not_found" }

pub data Answer (A : Type 0) : Type 0 where
  ok : A → Answer A
  fails : ApiError → Answer A
