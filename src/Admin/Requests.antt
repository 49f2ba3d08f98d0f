-- ===== src/Admin/Requests.antt =====
-- The writes that the pages of the administration send with `api`.
use Prim.Native.String.{String}
use mathlib.Core.Bool.{Bool}
use mathlib.Core.Option.{Option, none, some}
use statora.Prelude.Tests.{if◌then◌else◌}

-- a call of `api` with its path, and its body where it has one
pub data Request {ℓ} (B : Type ℓ) : Type ℓ where
  post patch put : String → B → Request B
  post_empty delete : String → Request B

-- what becomes of a submitted form: a request, or a message where no request is sent
pub data Submission {ℓ} (B : Type ℓ) : Type ℓ where
  send : Request B → Submission B
  refused : String → Submission B

-- `if (!confirm(…)) return`, with the answer
abbrev pub confirmed {ℓ} : {A : Type ℓ} → Bool → A → Option A
confirmed answer a = if answer then some a else none
