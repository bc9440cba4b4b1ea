-- ===== src/Auth/Tables/Reads.antt =====
-- auth/rules_base.py, `BASE_REQUEST_AUTHORIZATION_RULES`: reads of experiments, their child resources and datasets.
use mlflow_integration.Shared.{String, List, [], ◌∷◌}
use mlflow_integration.Auth.Rules.{
  AuthorizationRule, artifact_experiment_id_to_name, dataset_id_to_name, datasets_rule,
  experiment_id_to_name, experiments_rule, model_id_to_experiment_name,
  request_authorized_experiment_ids, request_batch_get_traces, request_experiment_ids,
  request_list_scorers, request_run_ids, request_search_datasets, request_trace_locations,
  run_id_to_experiment_name, trace_id_to_experiment_name, trace_request_id_to_experiment_name,
  with_parsers, with_policy,
}

-- Reads of experiments, their child resources and datasets.
unfoldable pub read_rules : List (String × List AuthorizationRule)
read_rules =
    (
      "GetAssessmentRequest",
      with_parsers (trace_id_to_experiment_name ∷ []) (experiments_rule "get") ∷ [],
    )
    ∷ ("GetRun", with_parsers (run_id_to_experiment_name ∷ []) (experiments_rule "get") ∷ [])
    ∷ (
      "GetMetricHistory",
      with_parsers (run_id_to_experiment_name ∷ []) (experiments_rule "get") ∷ [],
    )
    ∷ ("ListArtifacts", with_parsers (run_id_to_experiment_name ∷ []) (experiments_rule "get") ∷ [])
    ∷ (
      "GetLoggedModel",
      with_parsers (model_id_to_experiment_name ∷ []) (experiments_rule "get") ∷ [],
    )
    ∷ (
      "ListLoggedModelArtifacts",
      with_parsers (model_id_to_experiment_name ∷ []) (experiments_rule "get") ∷ [],
    )
    ∷ ("ListScorers", with_policy request_list_scorers (experiments_rule "get") ∷ [])
    ∷ ("GetScorer", with_parsers (experiment_id_to_name ∷ []) (experiments_rule "get") ∷ [])
    ∷ (
      "ListScorerVersions",
      with_parsers (experiment_id_to_name ∷ []) (experiments_rule "get") ∷ [],
    )
    ∷ (
      "GetTraceInfo",
      with_parsers (trace_request_id_to_experiment_name ∷ []) (experiments_rule "get") ∷ [],
    )
    ∷ (
      "GetTraceInfoV3",
      with_parsers (trace_id_to_experiment_name ∷ []) (experiments_rule "get") ∷ [],
    )
    ∷ (
      "DownloadArtifact",
      with_parsers (artifact_experiment_id_to_name ∷ []) (experiments_rule "get") ∷ [],
    )
    ∷ (
      "ListArtifactsMlflowArtifacts",
      with_parsers (artifact_experiment_id_to_name ∷ []) (experiments_rule "get") ∷ [],
    )
    ∷ ("GetDataset", with_parsers (dataset_id_to_name ∷ []) (datasets_rule "get") ∷ [])
    ∷ (
      "GetDatasetExperimentIds",
      with_parsers (dataset_id_to_name ∷ []) (datasets_rule "list") ∷ [],
    )
    ∷ ("GetDatasetRecords", with_parsers (dataset_id_to_name ∷ []) (datasets_rule "list") ∷ [])
    ∷ ("SearchDatasets", with_policy request_experiment_ids (datasets_rule "list") ∷ [])
    ∷ ("SearchEvaluationDatasets", with_policy request_search_datasets (datasets_rule "list") ∷ [])
    ∷ ("SearchLoggedModels", with_policy request_experiment_ids (experiments_rule "list") ∷ [])
    ∷ ("BatchGetTraces", with_policy request_batch_get_traces (experiments_rule "list") ∷ [])
    ∷ (
      "CalculateTraceFilterCorrelation",
      with_policy request_experiment_ids (experiments_rule "list") ∷ [],
    )
    ∷ ("QueryTraceMetrics", with_policy request_experiment_ids (experiments_rule "list") ∷ [])
    ∷ ("SearchTraces", with_policy request_authorized_experiment_ids (experiments_rule "list") ∷ [])
    ∷ ("SearchTracesV3", with_policy request_trace_locations (experiments_rule "list") ∷ [])
    ∷ ("GetMetricHistoryBulkInterval", with_policy request_run_ids (experiments_rule "list") ∷ [])
    ∷ ("SearchRuns", with_policy request_experiment_ids (experiments_rule "list") ∷ [])
    ∷ []
