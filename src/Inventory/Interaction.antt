-- ===== src/Inventory/Interaction.antt =====
-- The answer that the connector gives to an interaction request of the app-server
-- (crates/agent/src/session_inventory.rs). `str::trim` is a parameter.
pub mod Grants
use chaop.Base.{
  String, str_eq, ◌str++◌, Bool, true, false, not, ◌&&◌, ◌||◌, Option, none, some, if◌then◌else◌,
  is_some_and, Result, ok, err,
}
use chaop.Json.{
  Value, null, string, array, object, Items, nil, cons, Fields, end, field, get, as_str,
  insert_field,
}

-- The answers of an input are what serde makes of the map.
pub data TurnInteractionResponse : Type 0 where
  approval : Value → TurnInteractionResponse
  input : Value → TurnInteractionResponse

abbrev pub method_is : String → String → Bool
method_is method m = str_eq method m

unfoldable pub app_server_turn_request_method : String → Bool
app_server_turn_request_method method =
    method_is method "item/commandExecution/requestApproval"
    || method_is method "item/fileChange/requestApproval"
    || method_is method "item/permissions/requestApproval"
    || method_is method "item/tool/requestUserInput"

unfoldable pub all_parts : (String → String) → Items → Bool
all_parts trim nil = true
all_parts trim (cons (string part) rest) = not (str_eq (trim part) "") && all_parts trim rest
all_parts trim (cons _ rest) = false

unfoldable pub execpolicy_amendment_is_valid : (String → String) → Value → Bool
unfolding all_parts
execpolicy_amendment_is_valid trim (array nil) = false
execpolicy_amendment_is_valid trim (array items) = all_parts trim items
execpolicy_amendment_is_valid trim v = false

-- `v.and_then(|value| value.get(key))`.
abbrev and_get : String → Option Value → Option Value
and_get key none = none
and_get key (some v) = get key v

abbrev text_is : Option Value → String → Bool
text_is v expected = is_some_and (as_str v) (λ s. str_eq s expected)

unfoldable pub approval_decision_is : (String → String) → Value → String → Bool
unfolding get execpolicy_amendment_is_valid
approval_decision_is trim decision expected =
    text_is (some decision) expected
    || (str_eq expected "acceptWithExecpolicyAmendment"
        && is_some_and
            (and_get "execpolicy_amendment" (get "acceptWithExecpolicyAmendment" decision))
            (execpolicy_amendment_is_valid trim))

unfoldable pub approval_resolution_status : (String → String) → Value → String
unfolding approval_decision_is
approval_resolution_status trim decision =
    if approval_decision_is trim decision "accept"
    then "accepted"
    else if approval_decision_is trim decision "acceptForSession"
    then "accepted_for_session"
    else if approval_decision_is trim decision "decline"
    then "declined"
    else if approval_decision_is trim decision "acceptWithExecpolicyAmendment"
    then "accepted_with_execpolicy_amendment"
    else "cancelled"

unfoldable pub is_null : Value → Bool
is_null null = true
is_null v = false

-- `if let Some(value) = requested.get(key).filter(|value| !value.is_null()) { … insert }`.
abbrev pub grant : String → Option Value → Fields → Fields
grant key none granted = granted
grant key (some v) granted = if is_null v then granted else insert_field key v granted

unfoldable pub granted_permissions_from_request : Value → Value
unfolding get insert_field
granted_permissions_from_request params = elim (get "permissions" params) [
  | none ↦ object end
  | some requested ↦ object (
      grant "fileSystem" (get "fileSystem" requested)
        (grant "network" (get "network" requested) end))
]

unfoldable pub requested_permissions_from_request : Value → Option Value
unfolding get insert_field
requested_permissions_from_request params = elim (get "permissions" params) [
  | none ↦ none
  | some requested ↦ non_empty (
      grant "fileSystem" (get "fileSystem" requested)
        (grant "network" (get "network" requested) end))
]
  where
    non_empty : Fields → Option Value
    non_empty end = none
    non_empty fields = some (object fields)

abbrev is_command_or_file : String → Bool
is_command_or_file method =
    method_is method "item/commandExecution/requestApproval"
    || method_is method "item/fileChange/requestApproval"

unfoldable pub permissions_answer : (String → String) → Value → Value → Value
unfolding approval_decision_is granted_permissions_from_request
permissions_answer trim params decision =
    let for_session = approval_decision_is trim decision "acceptForSession" in
    object (
      field "permissions"
        (if approval_decision_is trim decision "accept" || for_session
          then granted_permissions_from_request params
          else object end)
        (field "scope" (string (if for_session then "session" else "turn")) end))

unfoldable pub app_server_turn_interaction_result :
    (String → String) → String → Value → TurnInteractionResponse → Result Value String
unfolding permissions_answer
app_server_turn_interaction_result trim method params (approval decision) =
    if is_command_or_file method
    then ok (object (field "decision" decision end))
    else if method_is method "item/permissions/requestApproval"
    then ok (permissions_answer trim params decision)
    else if method_is method "item/tool/requestUserInput"
    then err "input request received an approval response"
    else err ("unsupported app-server interaction method: " str++ method)
app_server_turn_interaction_result trim method params (input answers) =
    if method_is method "item/tool/requestUserInput"
    then ok (object (field "answers" answers end))
    else err "approval request received an input response"
