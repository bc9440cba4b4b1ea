-- ===== src/Auth/Tables/Models.antt =====
-- auth/rules_base.py, `BASE_REQUEST_AUTHORIZATION_RULES`: the model registry.
use mlflow_integration.Shared.{String, List, [], ◌∷◌}
use mlflow_integration.Auth.Rules.{
  AuthorizationRule, broad_only, new_registered_model_name, registered_model_name,
  registered_models_rule, request_search_registered_models, webhook_id_to_registered_model_name,
  with_parsers, with_policy,
}

-- The model registry.
unfoldable pub model_rules : List (String × List AuthorizationRule)
model_rules =
    ("CreateRegisteredModel", registered_models_rule "create" ∷ [])
    ∷ (
      "GetRegisteredModel",
      with_parsers (registered_model_name ∷ []) (registered_models_rule "get") ∷ [],
    )
    ∷ (
      "DeleteRegisteredModel",
      with_parsers (registered_model_name ∷ []) (registered_models_rule "delete") ∷ [],
    )
    ∷ (
      "UpdateRegisteredModel",
      with_parsers (registered_model_name ∷ []) (registered_models_rule "update") ∷ [],
    )
    ∷ (
      "RenameRegisteredModel",
      with_parsers (registered_model_name ∷ new_registered_model_name ∷ [])
            (registered_models_rule "update")
          ∷ [],
    )
    ∷ (
      "SearchRegisteredModels",
      with_policy request_search_registered_models (registered_models_rule "list") ∷ [],
    )
    ∷ (
      "CreateModelVersion",
      with_parsers (registered_model_name ∷ []) (registered_models_rule "update") ∷ [],
    )
    ∷ (
      "DeleteModelVersion",
      with_parsers (registered_model_name ∷ []) (registered_models_rule "update") ∷ [],
    )
    ∷ (
      "UpdateModelVersion",
      with_parsers (registered_model_name ∷ []) (registered_models_rule "update") ∷ [],
    )
    ∷ (
      "TransitionModelVersionStage",
      with_parsers (registered_model_name ∷ []) (registered_models_rule "update") ∷ [],
    )
    ∷ (
      "SetRegisteredModelTag",
      with_parsers (registered_model_name ∷ []) (registered_models_rule "update") ∷ [],
    )
    ∷ (
      "DeleteRegisteredModelTag",
      with_parsers (registered_model_name ∷ []) (registered_models_rule "update") ∷ [],
    )
    ∷ (
      "SetModelVersionTag",
      with_parsers (registered_model_name ∷ []) (registered_models_rule "update") ∷ [],
    )
    ∷ (
      "DeleteModelVersionTag",
      with_parsers (registered_model_name ∷ []) (registered_models_rule "update") ∷ [],
    )
    ∷ (
      "SetRegisteredModelAlias",
      with_parsers (registered_model_name ∷ []) (registered_models_rule "update") ∷ [],
    )
    ∷ (
      "DeleteRegisteredModelAlias",
      with_parsers (registered_model_name ∷ []) (registered_models_rule "update") ∷ [],
    )
    ∷ (
      "CreateWebhook",
      with_parsers (registered_model_name ∷ []) (registered_models_rule "update") ∷ [],
    )
    ∷ (
      "DeleteWebhook",
      with_parsers (webhook_id_to_registered_model_name ∷ []) (registered_models_rule "update")
          ∷ [],
    )
    ∷ (
      "TestWebhook",
      with_parsers (webhook_id_to_registered_model_name ∷ []) (registered_models_rule "update")
          ∷ [],
    )
    ∷ (
      "UpdateWebhook",
      with_parsers (webhook_id_to_registered_model_name ∷ []) (registered_models_rule "update")
          ∷ [],
    )
    ∷ (
      "GetModelVersion",
      with_parsers (registered_model_name ∷ []) (registered_models_rule "get") ∷ [],
    )
    ∷ (
      "GetModelVersionDownloadUri",
      with_parsers (registered_model_name ∷ []) (registered_models_rule "get") ∷ [],
    )
    ∷ (
      "GetModelVersionByAlias",
      with_parsers (registered_model_name ∷ []) (registered_models_rule "get") ∷ [],
    )
    ∷ (
      "GetWebhook",
      with_parsers (webhook_id_to_registered_model_name ∷ []) (registered_models_rule "get") ∷ [],
    )
    ∷ (
      "GetLatestVersions",
      with_parsers (registered_model_name ∷ []) (registered_models_rule "list") ∷ [],
    )
    ∷ ("ListWebhooks", with_policy broad_only (registered_models_rule "list") ∷ [])
    ∷ []
