-- ===== src/Auth/Tables/Experiments.antt =====
-- auth/rules_base.py, `BASE_REQUEST_AUTHORIZATION_RULES`: experiments and datasets.
use mlflow_integration.Shared.{String, List, [], ◌∷◌}
use mlflow_integration.Auth.Rules.{
  AuthorizationRule, dataset_id_to_name, datasets_rule, experiment_id_to_name,
  experiment_ids_to_names, experiment_name, experiments_rule, new_experiment_name,
  request_search_experiments, with_parsers, with_policy,
}

-- Experiments and datasets.
unfoldable pub experiment_rules : List (String × List AuthorizationRule)
experiment_rules =
    ("CreateExperiment", experiments_rule "create" ∷ [])
    ∷ ("GetExperiment", with_parsers (experiment_id_to_name ∷ []) (experiments_rule "get") ∷ [])
    ∷ ("GetExperimentByName", with_parsers (experiment_name ∷ []) (experiments_rule "get") ∷ [])
    ∷ (
      "DeleteExperiment",
      with_parsers (experiment_id_to_name ∷ []) (experiments_rule "delete") ∷ [],
    )
    ∷ (
      "RestoreExperiment",
      with_parsers (experiment_id_to_name ∷ []) (experiments_rule "update") ∷ [],
    )
    ∷ (
      "UpdateExperiment",
      with_parsers (experiment_id_to_name ∷ new_experiment_name ∷ []) (experiments_rule "update")
          ∷ [],
    )
    ∷ (
      "SetExperimentTag",
      with_parsers (experiment_id_to_name ∷ []) (experiments_rule "update") ∷ [],
    )
    ∷ (
      "DeleteExperimentTag",
      with_parsers (experiment_id_to_name ∷ []) (experiments_rule "update") ∷ [],
    )
    ∷ ("SearchExperiments", with_policy request_search_experiments (experiments_rule "list") ∷ [])
    ∷ (
      "AddDatasetToExperiments",
      with_parsers (dataset_id_to_name ∷ []) (datasets_rule "update")
          ∷ with_parsers (experiment_ids_to_names ∷ []) (experiments_rule "update")
          ∷ [],
    )
    ∷ ("CreateDataset", datasets_rule "create" ∷ [])
    ∷ ("DeleteDataset", with_parsers (dataset_id_to_name ∷ []) (datasets_rule "delete") ∷ [])
    ∷ ("DeleteDatasetRecords", with_parsers (dataset_id_to_name ∷ []) (datasets_rule "update") ∷ [])
    ∷ ("DeleteDatasetTag", with_parsers (dataset_id_to_name ∷ []) (datasets_rule "update") ∷ [])
    ∷ (
      "RemoveDatasetFromExperiments",
      with_parsers (dataset_id_to_name ∷ []) (datasets_rule "update")
          ∷ with_parsers (experiment_ids_to_names ∷ []) (experiments_rule "update")
          ∷ [],
    )
    ∷ ("SetDatasetTags", with_parsers (dataset_id_to_name ∷ []) (datasets_rule "update") ∷ [])
    ∷ ("UpsertDatasetRecords", with_parsers (dataset_id_to_name ∷ []) (datasets_rule "update") ∷ [])
    ∷ []
