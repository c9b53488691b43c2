-- ===== src/Lib.antt =====
-- A model of the core of the SuperOffice AI support platform: the gateway through which every tool
-- call passes, the security layer that it asks, the investigation layer, and the client and
-- validator that guard what leaves the platform. Paths are from the repository's root.
--
-- How the parts interact. A call comes in at the gateway service, which authenticates it, finds the
-- route of the tool, asks the policy engine, asks the rate limiter, hands a request to the backend
-- that the route names, cleans the result and records one audit event. Behind a backend the
-- investigation layer keeps plans of bounded length, collects evidence from several sources, orders
-- and groups it and evaluates hypotheses against it. Requests to other systems go through the HTTP
-- client; queries to the extra tables of the CRM database go through the validator.
--
-- Files and code.
--   Common: Python's str, dict, set, int and exceptions. A str is the list of its code points, a
--     dict an association list in insertion order, an exception the `err` of a Result.
--   Security.Models, Security.Rbac: src/shared/platform-security/src/platform_security/models.py and
--     rbac.py. YamlPolicyEngine is a record; _load_and_validate_policy is load_and_validate_policy,
--     the validators of the pydantic models are the validate_ functions, and evaluate_policy and
--     authorize keep their names. Decisions, Authorization, Mapping and Validation hold the proofs.
--   Security.Jwt, Security.Sanitization: jwt.py and sanitization.py beside it; authenticate and
--     sanitize keep their names. Claims, Bearer, Scopes, Acceptance and Redaction hold the proofs.
--   Observability: the check of summaries in
--     src/shared/platform-observability/src/platform_observability/audit.py.
--   Security.RateLimit: rate_limiting.py there. The table of deques is a dict of lists, and
--     is_allowed returns the new limiter with its answer. Refinement compares one deque with a
--     specification that forgets nothing, Windows counts, Keys treats all callers at once.
--   Gateway.Routing, Gateway.Registry: src/gateway/src/platform_gateway/contracts/routing.py and
--     registry.py.
--   Gateway.Contracts, Gateway.Service: contracts/dispatch.py and services/gateway_service.py
--     there, and the AuditContext of
--     src/shared/platform-observability/src/platform_observability/audit.py. handle_tool_call goes
--     from state to state; its numbered sections are the stages. Tokens and Results put the JWT
--     authenticator and the recursive sanitizer in the place of its arguments.
--   Investigation: models.py, orchestrator.py with store.py, evaluator.py, aggregator.py and
--     timeline.py of src/shared/platform-investigation/src/platform_investigation. A plan store is a
--     dict; each call of the engine is one step, since the engine's lock is held from its read to
--     its write.
--   Http.Client: src/shared/platform-http/src/platform_http/client.py and models.py. The loop of
--     send is recursion on the attempts that are left, of which it is given max_attempts, or 1 for a
--     request that is not safe to retry; it never needs more.
--   Superoffice.Validator: src/servers/superoffice/src/so_mcp/extra_tables/validator.py.
--   Knowledge.Chunking, Knowledge.Eligibility: chunking.py and eligibility.py of
--     src/servers/knowledge/src/kb_mcp/ingestion. The window loop has as much fuel as there are
--     tokens; each round moves on by at least one, so that is enough. Of chunking.py the limits and
--     the window are modelled, not the partition into sections.
--   Knowledge.Normalization, Knowledge.Canonical: normalization.py and canonical.py there. The three
--     builders share build_dto; the checks of the pydantic models are new_document.
--   Knowledge.Admission: service.py and parsers.py there: Parsing has the parsers and the checks of
--     their models, Payloads the data, Texts the canonical texts, Outcomes the proofs. The number
--     of a step is printed with the number itself as fuel, which is at least its digits.
--   Knowledge.Artifacts: src/servers/knowledge/src/kb_mcp/adapters/filesystem_artifact_store.py. The
--     directory tree is two tables; each call also takes what the file system answers it. Store has
--     the state, Names the patterns of names, Root validate_artifact_root, Staging and Approved the
--     operations, Calls their sequences; the other children hold the proofs.
--   Examples: concrete inputs.
--
-- Arguments of the model. What a part is handed through an interface: the authenticator's answer
-- to a header, the filter of texts, the dispatcher's answer to a request, the sanitizer, the
-- evidence collectors. What is not code of this repository: the answers of httpx, PyJWT's decode,
-- str and float of claims, the clock readings, the identifiers of uuid4 and the random factor,
-- str.upper and str.lower (which have Unicode tables), the spans that the token pattern finds,
-- pathlib, SHA-256 and UTF-8, and the typed document that PyYAML and pydantic make of a policy
-- file, and the typed fields that json.loads and pydantic make of a JSON source. Times are
-- natural numbers of one clock tick. What pydantic trims is taken to be what str.strip trims.
--
-- Not modelled: the servers' assembly, settings and logging, which call frameworks; the regular
-- expressions of the default filter of texts; the sanitizer, the orchestrator and the
-- repositories of the knowledge server; the diagnostics, infrastructure and CRM adapters, which
-- are input and output; messages for people.
pub mod Common
pub mod Examples
pub mod Gateway
pub mod Http
pub mod Investigation
pub mod Knowledge
pub mod Observability
pub mod Security
pub mod Superoffice
