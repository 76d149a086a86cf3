-- ===== src/Model/Datum.antt =====
-- Results of stages: the messages CompletionResult and Datum of model/model.pb.go, the
-- constructors of model/results.go and HasValidValue of model/mixins.go.
use completer.Prelude.{ℕ, String, List, [], ◌∷◌, Option, Bool, true, false, if◌then◌else◌}
use text.Mathlib.Text.{◌==◌}

pub data ErrorDatumType : Type 0 where
  unknown_error stage_timeout stage_failed function_timeout : ErrorDatumType
  function_invoke_failed stage_lost invalid_stage_response : ErrorDatumType

pub data StatusDatumType : Type 0 where
  unknown_state succeeded failed cancelled killed : StatusDatumType

pub data HttpMethod : Type 0 where
  unknown_method get head post put delete options patch : HttpMethod

pub record BlobDatum : Type 0 where
  pub blob_id : String
  pub content_type : String
  pub length : ℕ

pub record HttpHeader : Type 0 where
  pub key : String
  pub value : String

pub record HttpReqDatum : Type 0 where
  pub body : Option BlobDatum
  pub headers : List HttpHeader
  pub method : HttpMethod

pub record HttpRespDatum : Type 0 where
  pub body : Option BlobDatum
  pub headers : List HttpHeader
  pub status_code : ℕ

pub record ErrorDatum : Type 0 where
  pub type : ErrorDatumType
  pub message : String

-- The oneof `val`; `unset` is the nil interface value.
pub data Datum : Type 0 where
  unset empty : Datum
  blob : BlobDatum → Datum
  error : ErrorDatum → Datum
  stage_ref : ℕ → Datum
  http_req : HttpReqDatum → Datum
  http_resp : HttpRespDatum → Datum
  status : StatusDatumType → Datum

pub record CompletionResult : Type 0 where
  pub successful : Bool
  pub datum : Datum

unfoldable pub has_valid_value : Datum → Bool
has_valid_value unset = false
has_valid_value _ = true

abbrev pub new_internal_error_result : ErrorDatumType → String → CompletionResult
new_internal_error_result code message = record {
  successful = false;
  datum = error (record { type = code; message = message });
}

abbrev pub new_empty_datum : Datum
new_empty_datum = empty

abbrev pub new_empty_result : CompletionResult
new_empty_result = record { successful = true; datum = new_empty_datum }

abbrev pub new_successful_result : Datum → CompletionResult
new_successful_result d = record { successful = true; datum = d }

abbrev pub new_failed_result : Datum → CompletionResult
new_failed_result d = record { successful = false; datum = d }

abbrev pub new_state_datum : StatusDatumType → Datum
new_state_datum t = status t

-- The values of the headers with a key, in order.
unfoldable pub get_header_values : List HttpHeader → String → List String
get_header_values [] key = []
get_header_values (h ∷ hs) key =
    let res = get_header_values hs key in if h.key == key then h.value ∷ res else res

unfoldable pub get_header : List HttpHeader → String → String
unfolding get_header_values
get_header hs key = elim (get_header_values hs key) [ [] ↦ "" | v ∷ vs ↦ v ]
