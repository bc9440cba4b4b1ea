-- ===== src/Lib.antt =====
-- The workspace plugin of mlflow_kubernetes_plugins, which maps MLflow workspaces to Kubernetes
-- namespaces, and its authorization plugin, from the rules of an endpoint to the access
-- reviews.
--
-- Three caches follow the cluster, each with a thread that lists the objects, watches their
-- events until the stream ends, and lists again. NamespaceCache holds the namespaces,
-- MlflowConfigCache the MLflowConfig objects, and SecretCache the shared artifact-connection
-- Secret of each namespace; it is created when a configuration first names that Secret. The
-- provider answers requests from the caches and asks Kubernetes itself on a miss. It says which
-- workspaces there are and where the artifacts of one are kept.
--
-- The authorizer asks Kubernetes whether a caller may do something, by a review of the caller's
-- own token or of the user and groups that a trusted proxy forwards. It keeps the answers for
-- some time in a cache that all request threads share. A request is authorized by the rules of
-- its path and method: each names a resource and a verb, and is met by a broad grant, by a
-- grant on each name that the request is about, or by a filter that narrows the request.
--
-- Which file models which part:
-- - Workspace/Globs, Workspace/Config: mlflow_kubernetes_plugins/workspace_plugin/provider.py,
--   the exclusion globs and their merging, KubernetesWorkspaceProviderConfig.from_sources, and
--   the options of the workspace URI. Shared/Fnmatch is fnmatchcase of Python's library: tokens
--   of a pattern, and the match.
-- - Workspace/Manifest: the Kubernetes objects as far as the caches read them, and what a watch
--   stream delivers.
-- - Workspace/Namespaces: mlflow_kubernetes_plugins/workspace_plugin/caches.py, NamespaceCache.
--   Namespaces has the fields, the refresh, the events and the lookups; Namespaces/Watch the
--   constructor, stop and _run.
-- - Workspace/Configs: the same for MlflowConfigCache; Configs/Requests has get_config and
--   get_configs, Configs/Watch the events and _run.
-- - Workspace/Secrets: the same for SecretCache, with Secrets/Watch.
-- - Workspace/Paths: _validate_artifact_path of provider.py, with posixpath.normpath.
-- - Workspace/Provider: KubernetesWorkspaceProvider.
-- - Auth/Expiring: mlflow_kubernetes_plugins/auth/authorizer.py, _ExpiringCache; each phase of
--   `get` and `set` that runs under a lock is one function.
-- - Auth/Lock: authorizer.py, _ReadWriteLock and its threads: one locked block, or the rest of
--   it after a wait, is one turn.
-- - Auth/Identity: mlflow_kubernetes_plugins/auth/core.py, _RequestIdentity.subject_hash.
-- - Auth/Access: authorizer.py, is_allowed and can_access_workspace of KubernetesAuthorizer,
--   and the list of resources from mlflow_kubernetes_plugins/auth/constants.py.
-- - Auth/Credentials: core.py, _resolve_bearer_token, _parse_remote_groups, _canonicalize_path
--   with the prefixes it strips, and _is_unprotected_path. Auth/Settings: authorizer.py,
--   _parse_bool_env and KubernetesAuthConfig.from_env.
-- - Auth/Rules, Auth/Tables: mlflow_kubernetes_plugins/auth/rules.py, rules_base.py and
--   rules_skill_registry.py: a rule, and both tables with every entry of them, a request class
--   by its name. Tables/Completeness is about the tables.
-- - Auth/Compiler: mlflow_kubernetes_plugins/auth/compiler.py, _compile_authorization_rules and
--   _find_authorization_rules. Auth/Templates: core.py, _re_compile_path. Auth/PathParams:
--   compiler.py, _compile_named_path_pattern and _extract_path_params. Templates/Pieces has
--   templates as a data type of their own, with their text and the paths that they stand for.
--   Auth/Fastapi: compiler.py, _validate_fastapi_route_authorization, and core.py,
--   _fastapi_path_to_template.
-- - Auth/Request: mlflow_kubernetes_plugins/auth/request_context.py, and the functions of
--   core.py that read one request or load its body.
-- - Auth/Authorize: core.py, _authorize_request_async. Authorize has the interface to the other
--   components, Budget and Gateway the checks on gateway resources, Rule the body of the loop
--   over the rules, Loop all around it. Authorize/Contract says what the components promise
--   and, in Contract/Changes, what they make of a request, and Authorize/Kubernetes fills it by
--   the theorems on access reviews.
-- - Shared: Python's dict, str and exceptions, JSON values, and methods that change fields and
--   may raise.
-- - Tests: runs at concrete inputs, and the theorems at inputs that meet their hypotheses.
--
-- How state and operations correspond: a cache is a record of its fields, and an event flag
-- (ready, stopped, retry) is a Boolean. A method is a function from the record, and an
-- exception is a value of Outcome; Action adds the changes that were made before an exception.
-- What Kubernetes answers to a call is an argument, so every theorem holds for any answers. A
-- round of _run is one pass through its loop: what the relist gave, and what the stream
-- delivered, with calls of stop in between. A run is a list of rounds, as many as one likes,
-- which replaces the endless loop; no fuel is used, and every recursion is on a list or a text.
-- Two methods of one cache never overlap inside the lock, so a run is a sequence of whole
-- events and whole relists. A time is a number of clock ticks, and a function takes the times
-- at which it reads the clock.
--
-- Parameters: `decode` for base64 and UTF-8 decoding of a Secret, `append_to_uri_path` of
-- MLflow, `sha256` for the digest of a text, and `review` for the answer of an access review.
-- `parse_json` and `decode` of the requests stand for json.loads and base64, `is_one` and
-- `digit` for what Python says of a number and a character, `to_float` and `at_most_zero` for
-- float(text) and its comparison with 0. The resolution of names, the collection filters, the
-- lookup of rules and the rules of skill artifacts are fields of the record Collaborators;
-- PartsKeep states that they leave the caches sound, and the path, the method, the headers and
-- the path parameters of a request alone. The property of from_env asks that the default time
-- to live is not at most zero. No other property rests on a hypothesis about a parameter. What
-- MLflow registers (its request classes with their handlers, its endpoints and its Flask
-- routes) is an argument of the compilation, and so is what a GraphQL query needs.
--
-- Not modelled: logging, timeouts of waits (a wait for readiness is read as a test of the
-- flag), the creation of the Kubernetes clients, urlparse and parse_qs (the query comes
-- parsed), which named patterns the compilation registers, and the rest of
-- mlflow_kubernetes_plugins/auth: how names are resolved, how collections are filtered, GraphQL
-- and the middleware. The functions of Python's library that the source calls are models of
-- their own: posixpath.normpath in Workspace/Paths, fnmatchcase in Shared/Fnmatch, and re's
-- fullmatch and groupdict in Auth/Templates and Auth/PathParams. In the pattern of a path, a
-- dot stands for any character as it does in the source, and other characters that are special
-- to re are taken as plain. Messages of exceptions are left out, and so is the awaiting of the
-- body: its callback is the outcome that it would have.
pub mod Shared
pub mod Workspace
pub mod Auth
pub mod Tests
