-- ===== src/Inventory/Interaction/Grants.antt =====
-- What an answer to a permissions request grants (crates/agent/src/session_inventory.rs).
use chaop.Base.{
  is_ok, not, ◌&&◌, str_eq, Bool, if◌then◌else◌, ◌≡◌, refl, arith, String, str_eq_iff, true, false,
  Option, some, ok, Bool-cases, Option-cases, ◌||◌, ◌⊎◌, inl, inr,
}
use chaop.Json.{Value, end, get, find_field, insert_field}
use chaop.Inventory.Interaction.{
  TurnInteractionResponse, approval, input, grant, is_null, permissions_answer,
  app_server_turn_request_method, approval_decision_is, granted_permissions_from_request,
  app_server_turn_interaction_result,
}

granted_from :
    (net files : Option Value) (key : String) (value : Value)
    → find_field key (grant "fileSystem" files (grant "network" net end)) ≡ some value
    → (((key ≡ "network") × (net ≡ some value)) ⊎ ((key ≡ "fileSystem") × (files ≡ some value)))
      × (is_null value ≡ false)
unfolding find_field insert_field
granted_from net files key value found =
    ground (arith, str_eq_iff "network" key, str_eq_iff "fileSystem" key)

granted-lookup :
    (params value : Value) (key : String)
    → get key (granted_permissions_from_request params) ≡ some value
    → (requested : Value) × (get "permissions" params ≡ some requested)
      × (get key requested ≡ some value)
      × (is_null value ≡ false)
unfolding granted_permissions_from_request get
granted-lookup params value key found = elim (Option-cases (get "permissions" params)) [
  | inl missing ↦ absurd (ground (arith, found))
  | inr (requested, asked) ↦
      let from = granted_from (get "network" requested) (get "fileSystem" requested) key value in
      (requested, asked, ground (arith, from), ground (arith, from))
]

-- Whatever permission an answer to a permissions request carries under a key, the request asked for
-- this very value under that key, the value is not null, and the decision is an acceptance, for the
-- turn or for the session.
pub grants_requested :
    (trim : String → String) (params decision answer permissions value : Value) (key : String)
    → app_server_turn_interaction_result trim "item/permissions/requestApproval" params
        (approval decision)
      ≡ ok answer
    → get "permissions" answer ≡ some permissions
    → get key permissions ≡ some value
    → (requested : Value) × (get "permissions" params ≡ some requested)
      × (get key requested ≡ some value)
      × (is_null value ≡ false)
      × ((approval_decision_is trim decision "accept"
            || approval_decision_is trim decision "acceptForSession")
          ≡ true)
unfolding app_server_turn_interaction_result permissions_answer get find_field
grants_requested trim params decision answer permissions value key answered held granted =
    let accepted =
      approval_decision_is trim decision "accept"
      || approval_decision_is trim decision "acceptForSession" in
    elim (Bool-cases accepted) [
      | inl yes_granted ↦
          let lookup = granted-lookup params value key (ground arith) in
          (lookup.0, lookup.1, lookup.2, lookup.3, yes_granted)
      | inr refused ↦ absurd (ground arith)
    ]

abbrev pub is_input : TurnInteractionResponse → Bool
is_input (approval decision) = false
is_input (input answers) = true

one_text : (m a b : String) → str_eq a b ≡ false → (str_eq m a && str_eq m b) ≡ false
one_text m a b apart = ground (arith, str_eq_iff m a, str_eq_iff m b, str_eq_iff a b)

-- A request is answered, and not refused with an error, exactly when its method is one that the
-- connector takes as an interaction and the response is of the method's kind: an input for the
-- request of a user's input, and an approval for the others.
answers_known :
    (trim : String → String) (method : String) (params : Value) (response : TurnInteractionResponse)
    → let asks_input = str_eq method "item/tool/requestUserInput" in
      is_ok (app_server_turn_interaction_result trim method params response) ≡ (
        app_server_turn_request_method method
        && (if is_input response then asks_input else not asks_input))
unfolding app_server_turn_interaction_result app_server_turn_request_method
answers_known trim method params (approval decision) =
    let asks : String = "item/tool/requestUserInput" in
    ground (
      arith,
      one_text method "item/commandExecution/requestApproval" asks refl,
      one_text method "item/fileChange/requestApproval" asks refl,
      one_text method "item/permissions/requestApproval" asks refl,
    )
answers_known trim method params (input answers) = ground arith
