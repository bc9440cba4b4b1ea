-- ===== src/Auth/Tables/Skills.antt =====
-- auth/rules_skill_registry.py, `SKILL_REGISTRY_PATH_AUTHORIZATION_RULES`: skills.
use mlflow_integration.Shared.{String, List, [], ◌∷◌}
use mlflow_integration.Auth.Rules.{AuthorizationRule, skill_name, skills_rule, with_parsers}

-- Skills.
unfoldable pub skill_path_rules : List ((String × String) × List AuthorizationRule)
skill_path_rules =
    (("/api/3.0/mlflow/skills", "POST"), skills_rule "create" ∷ [])
    ∷ (("/api/3.0/mlflow/skills", "GET"), skills_rule "list" ∷ [])
    ∷ (("/api/3.0/mlflow/skills/bulk-register", "POST"), skills_rule "update" ∷ [])
    ∷ (
      ("/api/3.0/mlflow/skills/@<organization>/<name>/versions", "POST"),
      with_parsers (skill_name ∷ []) (skills_rule "update") ∷ [],
    )
    ∷ (
      ("/api/3.0/mlflow/skills/@<organization>/<name>/versions", "GET"),
      with_parsers (skill_name ∷ []) (skills_rule "get") ∷ [],
    )
    ∷ (
      ("/api/3.0/mlflow/skills/@<organization>/<name>/versions/<version>", "GET"),
      with_parsers (skill_name ∷ []) (skills_rule "get") ∷ [],
    )
    ∷ (
      ("/api/3.0/mlflow/skills/@<organization>/<name>/versions/<version>", "PATCH"),
      with_parsers (skill_name ∷ []) (skills_rule "update") ∷ [],
    )
    ∷ (
      ("/api/3.0/mlflow/skills/@<organization>/<name>/versions/<version>", "DELETE"),
      with_parsers (skill_name ∷ []) (skills_rule "update") ∷ [],
    )
    ∷ (
      ("/api/3.0/mlflow/skills/@<organization>/<name>/versions/<version>/tags", "POST"),
      with_parsers (skill_name ∷ []) (skills_rule "update") ∷ [],
    )
    ∷ (
      (
        "/api/3.0/mlflow/skills/@<organization>/<name>/versions/<version>/tags/<path:key>",
        "DELETE",
      ),
      with_parsers (skill_name ∷ []) (skills_rule "update") ∷ [],
    )
    ∷ (
      ("/api/3.0/mlflow/skills/@<organization>/<name>/aliases", "POST"),
      with_parsers (skill_name ∷ []) (skills_rule "update") ∷ [],
    )
    ∷ (
      ("/api/3.0/mlflow/skills/@<organization>/<name>/aliases/<alias>", "GET"),
      with_parsers (skill_name ∷ []) (skills_rule "get") ∷ [],
    )
    ∷ (
      ("/api/3.0/mlflow/skills/@<organization>/<name>/aliases/<alias>", "DELETE"),
      with_parsers (skill_name ∷ []) (skills_rule "update") ∷ [],
    )
    ∷ (
      ("/api/3.0/mlflow/skills/@<organization>/<name>/tags", "POST"),
      with_parsers (skill_name ∷ []) (skills_rule "update") ∷ [],
    )
    ∷ (
      ("/api/3.0/mlflow/skills/@<organization>/<name>/tags/<path:key>", "DELETE"),
      with_parsers (skill_name ∷ []) (skills_rule "update") ∷ [],
    )
    ∷ (
      ("/api/3.0/mlflow/skills/@<organization>/<name>", "GET"),
      with_parsers (skill_name ∷ []) (skills_rule "get") ∷ [],
    )
    ∷ (
      ("/api/3.0/mlflow/skills/@<organization>/<name>", "PATCH"),
      with_parsers (skill_name ∷ []) (skills_rule "update") ∷ [],
    )
    ∷ (
      ("/api/3.0/mlflow/skills/@<organization>/<name>", "DELETE"),
      with_parsers (skill_name ∷ []) (skills_rule "delete") ∷ [],
    )
    ∷ (
      ("/api/3.0/mlflow/skills/<name>/versions", "POST"),
      with_parsers (skill_name ∷ []) (skills_rule "update") ∷ [],
    )
    ∷ (
      ("/api/3.0/mlflow/skills/<name>/versions", "GET"),
      with_parsers (skill_name ∷ []) (skills_rule "get") ∷ [],
    )
    ∷ (
      ("/api/3.0/mlflow/skills/<name>/versions/<version>", "GET"),
      with_parsers (skill_name ∷ []) (skills_rule "get") ∷ [],
    )
    ∷ (
      ("/api/3.0/mlflow/skills/<name>/versions/<version>", "PATCH"),
      with_parsers (skill_name ∷ []) (skills_rule "update") ∷ [],
    )
    ∷ (
      ("/api/3.0/mlflow/skills/<name>/versions/<version>", "DELETE"),
      with_parsers (skill_name ∷ []) (skills_rule "update") ∷ [],
    )
    ∷ (
      ("/api/3.0/mlflow/skills/<name>/versions/<version>/tags", "POST"),
      with_parsers (skill_name ∷ []) (skills_rule "update") ∷ [],
    )
    ∷ (
      ("/api/3.0/mlflow/skills/<name>/versions/<version>/tags/<path:key>", "DELETE"),
      with_parsers (skill_name ∷ []) (skills_rule "update") ∷ [],
    )
    ∷ (
      ("/api/3.0/mlflow/skills/<name>/aliases", "POST"),
      with_parsers (skill_name ∷ []) (skills_rule "update") ∷ [],
    )
    ∷ (
      ("/api/3.0/mlflow/skills/<name>/aliases/<alias>", "GET"),
      with_parsers (skill_name ∷ []) (skills_rule "get") ∷ [],
    )
    ∷ (
      ("/api/3.0/mlflow/skills/<name>/aliases/<alias>", "DELETE"),
      with_parsers (skill_name ∷ []) (skills_rule "update") ∷ [],
    )
    ∷ (
      ("/api/3.0/mlflow/skills/<name>/tags", "POST"),
      with_parsers (skill_name ∷ []) (skills_rule "update") ∷ [],
    )
    ∷ (
      ("/api/3.0/mlflow/skills/<name>/tags/<path:key>", "DELETE"),
      with_parsers (skill_name ∷ []) (skills_rule "update") ∷ [],
    )
    ∷ (
      ("/api/3.0/mlflow/skills/<name>", "GET"),
      with_parsers (skill_name ∷ []) (skills_rule "get") ∷ [],
    )
    ∷ (
      ("/api/3.0/mlflow/skills/<name>", "PATCH"),
      with_parsers (skill_name ∷ []) (skills_rule "update") ∷ [],
    )
    ∷ (
      ("/api/3.0/mlflow/skills/<name>", "DELETE"),
      with_parsers (skill_name ∷ []) (skills_rule "delete") ∷ [],
    )
    ∷ []
