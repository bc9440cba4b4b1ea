-- ===== src/Auth/Tables/Writes.antt =====
-- auth/rules_base.py, `BASE_REQUEST_AUTHORIZATION_RULES`: writes to the child resources of experiments.
use mlflow_integration.Shared.{String, true, List, [], ◌∷◌}
use mlflow_integration.Auth.Rules.{
  AuthorizationRule, artifact_experiment_id_to_name, experiment_id_to_name, experiments_rule,
  model_id_to_experiment_name, run_id_to_experiment_name, trace_id_to_experiment_name,
  trace_request_id_to_experiment_name, trace_v3_experiment_id_to_name, with_parsers,
}

-- Writes to the child resources of experiments.
unfoldable pub child_write_rules : List (String × List AuthorizationRule)
child_write_rules =
    (
      "CreateAssessment",
      with_parsers (trace_id_to_experiment_name ∷ []) (experiments_rule "update") ∷ [],
    )
    ∷ (
      "UpdateAssessment",
      with_parsers (trace_id_to_experiment_name ∷ []) (experiments_rule "update") ∷ [],
    )
    ∷ (
      "CreateRun",
      (record (with_parsers (experiment_id_to_name ∷ []) (experiments_rule "update")) {
        override_run_user = true;
      })
          ∷ [],
    )
    ∷ ("DeleteRun", with_parsers (run_id_to_experiment_name ∷ []) (experiments_rule "update") ∷ [])
    ∷ ("RestoreRun", with_parsers (run_id_to_experiment_name ∷ []) (experiments_rule "update") ∷ [])
    ∷ ("UpdateRun", with_parsers (run_id_to_experiment_name ∷ []) (experiments_rule "update") ∷ [])
    ∷ ("LogMetric", with_parsers (run_id_to_experiment_name ∷ []) (experiments_rule "update") ∷ [])
    ∷ ("LogBatch", with_parsers (run_id_to_experiment_name ∷ []) (experiments_rule "update") ∷ [])
    ∷ ("LogModel", with_parsers (run_id_to_experiment_name ∷ []) (experiments_rule "update") ∷ [])
    ∷ ("SetTag", with_parsers (run_id_to_experiment_name ∷ []) (experiments_rule "update") ∷ [])
    ∷ ("DeleteTag", with_parsers (run_id_to_experiment_name ∷ []) (experiments_rule "update") ∷ [])
    ∷ ("LogParam", with_parsers (run_id_to_experiment_name ∷ []) (experiments_rule "update") ∷ [])
    ∷ (
      "CreateLoggedModel",
      with_parsers (experiment_id_to_name ∷ []) (experiments_rule "update") ∷ [],
    )
    ∷ (
      "DeleteLoggedModel",
      with_parsers (model_id_to_experiment_name ∷ []) (experiments_rule "update") ∷ [],
    )
    ∷ (
      "FinalizeLoggedModel",
      with_parsers (model_id_to_experiment_name ∷ []) (experiments_rule "update") ∷ [],
    )
    ∷ (
      "DeleteLoggedModelTag",
      with_parsers (model_id_to_experiment_name ∷ []) (experiments_rule "update") ∷ [],
    )
    ∷ (
      "SetLoggedModelTags",
      with_parsers (model_id_to_experiment_name ∷ []) (experiments_rule "update") ∷ [],
    )
    ∷ (
      "LogLoggedModelParamsRequest",
      with_parsers (model_id_to_experiment_name ∷ []) (experiments_rule "update") ∷ [],
    )
    ∷ ("RegisterScorer", with_parsers (experiment_id_to_name ∷ []) (experiments_rule "update") ∷ [])
    ∷ ("DeleteScorer", with_parsers (experiment_id_to_name ∷ []) (experiments_rule "update") ∷ [])
    ∷ (
      "EndTrace",
      with_parsers (trace_request_id_to_experiment_name ∷ []) (experiments_rule "update") ∷ [],
    )
    ∷ (
      "LinkPromptsToTrace",
      with_parsers (trace_id_to_experiment_name ∷ []) (experiments_rule "update") ∷ [],
    )
    ∷ (
      "LinkTracesToRun",
      with_parsers (run_id_to_experiment_name ∷ []) (experiments_rule "update") ∷ [],
    )
    ∷ (
      "DeleteTraceTag",
      with_parsers (trace_request_id_to_experiment_name ∷ []) (experiments_rule "update") ∷ [],
    )
    ∷ (
      "DeleteTraceTagV3",
      with_parsers (trace_id_to_experiment_name ∷ []) (experiments_rule "update") ∷ [],
    )
    ∷ ("DeleteTraces", with_parsers (experiment_id_to_name ∷ []) (experiments_rule "update") ∷ [])
    ∷ ("DeleteTracesV3", with_parsers (experiment_id_to_name ∷ []) (experiments_rule "update") ∷ [])
    ∷ (
      "SetTraceTag",
      with_parsers (trace_request_id_to_experiment_name ∷ []) (experiments_rule "update") ∷ [],
    )
    ∷ (
      "SetTraceTagV3",
      with_parsers (trace_id_to_experiment_name ∷ []) (experiments_rule "update") ∷ [],
    )
    ∷ ("StartTrace", with_parsers (experiment_id_to_name ∷ []) (experiments_rule "update") ∷ [])
    ∷ (
      "StartTraceV3",
      with_parsers (trace_v3_experiment_id_to_name ∷ []) (experiments_rule "update") ∷ [],
    )
    ∷ ("LogInputs", with_parsers (run_id_to_experiment_name ∷ []) (experiments_rule "update") ∷ [])
    ∷ ("LogOutputs", with_parsers (run_id_to_experiment_name ∷ []) (experiments_rule "update") ∷ [])
    ∷ (
      "CompleteMultipartUpload",
      with_parsers (artifact_experiment_id_to_name ∷ []) (experiments_rule "update") ∷ [],
    )
    ∷ (
      "CreateMultipartUpload",
      with_parsers (artifact_experiment_id_to_name ∷ []) (experiments_rule "update") ∷ [],
    )
    ∷ (
      "AbortMultipartUpload",
      with_parsers (artifact_experiment_id_to_name ∷ []) (experiments_rule "update") ∷ [],
    )
    ∷ (
      "DeleteArtifact",
      with_parsers (artifact_experiment_id_to_name ∷ []) (experiments_rule "update") ∷ [],
    )
    ∷ (
      "UploadArtifact",
      with_parsers (artifact_experiment_id_to_name ∷ []) (experiments_rule "update") ∷ [],
    )
    ∷ []
