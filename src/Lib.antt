-- ===== src/Lib.antt =====
-- The backend of the Daiki AI gateway: who may use which model, how much of it, and in which order.
--
-- A chat request passes these parts in turn. The router (internal/inference/router.go) resolves its
-- alias to a model and a workload. The quota of its user or API key (cmd/api/access.go) decides whether
-- it is blocked, and reserves tokens in every window. The queue (internal/inference/queue.go) gives it
-- a slot. The runtime (cmd/api/model_runtime.go) trims it to the model's budget, admits it to the
-- model and classifies what fails. In the end the slot is released and the reservation with it.
-- A chat may also be answered in the background, as a run (cmd/api/chat_runs.go) that its owner starts,
-- pauses, resumes and cancels. Users redeem credits that reset their quota
-- (internal/store/quota_resets.go), and research reads public web pages (cmd/api/research.go).
--
-- Files and what they model:
--   Prelude: integers, lists, texts and Go's `(value, error)` results (Prelude/Int, Lists, Text,
--     Results, Tests). An int or int64 is a ℤ; where the code can overflow, the model wraps (wrap64).
--   Redis, Redis/Sorted: what the code relies on of Redis, as interfaces of commands with their
--     documented behaviour. A Lua script or a transaction runs as one step; a key's own expiry is an
--     event outside. Both interfaces have a store in memory (in_memory, Redis/Sorted/Memory).
--   Quota/Calendar: the months of Go's time package. Quota/Window: quotaWindowSpec and
--     quotaRetryAfterSeconds. Times are nanoseconds from year 1 in UTC.
--   Quota/Policy: normalizePolicy and normalizeQuotaInterval of internal/store/store.go. A JSON field
--     is what Unmarshal makes of it (absent, malformed or decoded).
--   Quota/Evaluate: policyQuotaSpecs, evaluateQuota and policyAllowsModel; the sums of usage that
--     PostgreSQL answers are the parameter Ledger.
--   Quota/Reserve: quotaRuntimeKeys, and the scripts of reserveQuota and releaseReservation.
--   Quota/Effective: effectiveUserQuota, userQuotaSnapshot and quotaFor, and the limits of users whose
--     approval is pending: pendingQuotaPolicy, restrictPendingChat and enforcePendingChatRate.
--   Quota/Resets: the operations of internal/store/quota_resets.go, on the rows of the tables.
--   Inference/Queue: NewQueue, Acquire, tryAcquire, renew, release and cancel. Between two polls of
--     Acquire others may change the store in any way (Poll).
--   Inference/Router: NewRouter and RouteChat.
--   Guest/Policy: validateGuestAccessPolicy of internal/store/guest_policy.go. Guest/Rate:
--     guestRateRetryAfter and enforceGuestRate of cmd/api/guest.go.
--     Guest/Chat: restrictGuestChat of that file.
--   Runtime/Budget: the budgets of cmd/api/model_runtime.go, and reservationTokens of
--     cmd/api/access.go. Runtime/Admission: tryModelAdmission, tryModelDailyAdmission,
--     markModelDailyExhausted and shouldSpillModelAdmission. Runtime/Failure: the kinds of failures
--     and the time a circuit stays open. Runtime/Reasoning: reasoningEffortForModel.
--   Runtime/Pool: the health and the daily pace of the free models of cmd/api/model_pool.go;
--     Runtime/Pool/Score: poolCandidateScore and weightedPoolOffset; Runtime/Pool/Choice:
--     selectFreePoolModel; Runtime/Pool/Choice/Fallback: withModelPoolRoute,
--     selectInitialFreePoolModel and preparePoolFallback.
--   Runtime/Context: estimateMessageTokens, estimateChatInputTokens, compactText and compactMessage;
--     Runtime/Context/Trim: trimChatContext and setRequestModel (Runtime/Context/Picked is about its
--     loop, Runtime/Context/Trimmed about the whole).
--   Runtime/Recovery: applyFallbackModel and doModelRequestWithRecovery; Runtime/Recovery/Steps: its
--     loop, stage by stage; Runtime/Recovery/Start: what precedes the loop.
--   Payload: redactValue of cmd/api/usage_metadata.go, and stripPrivateReasoning and
--     sanitizeReasoningJSON of cmd/api/main.go. Payload/Capped: cappedBuffer and safePayloadSnapshot.
--     Payload/Names: the names that requests and responses mention, and the metadata of both.
--   Artifacts: removeGeneratedJSONTrailingCommas and extractGeneratedJSONCandidate of
--     cmd/api/file_artifacts.go.
--   Chats/Runs: the table of internal/store/chat_runs.go; Chats/Runs/Control: startChatRun and
--     controlChatRun of cmd/api/chat_runs.go; Chats/Runs/Execute: editChatMessage, and executeChatRun
--     in steps, between which every other handler and goroutine may run (Chats/Runs/Reached).
--   Research/Fetch: newPublicWebClient, publicIP and fetchPublicDocument of cmd/api/research.go.
--   Tools: intArg, and evalExpression with its parser, of cmd/api/smart_tools.go.
--   Access: auth, tokenForClient, roles, hasRole and isConfiguredAdmin of cmd/api/main.go; Access/Guards:
--     adminOnly of that file, and approvalRequired, chatAccess and requirePrincipalScope of
--     cmd/api/access.go. The verifier of tokens and the store are the parameter Directory.
--   Attachments: attachmentPolicyLimit, attachmentCountLimit and enforceAttachmentUploadRate of
--     cmd/api/attachments.go.
--   Examples: every result that has conditions, applied to concrete inputs.
--
-- Bounds and fuel: the loops of the code run over lists and are structural; the only fuel is that
-- of `decimal`, which has a step for every digit and more, that of the calculator, which has five
-- steps for every byte and five more, and the number of attempts of a request, six, and the number
-- of requests of a fetch, three. Scores and numbers that Go computes in float64 beyond products
-- with hundredths are an interface of the operations (Scores, Floats). Products with a fraction of
-- a hundred, which Go computes in float64, are exact below 2^46; Lua's fractions of a token are
-- exact rationals here. Letters change their case and are compared without it in ASCII only; the
-- saturation of a duration at 292 years is left out, and so is a proxy of the environment.
--
-- Not modelled: the handlers of HTTP but for those named, server-sent events, the extraction of
-- documents, prompt texts, and the queries of SQL but for those of quota resets and chat runs, which
-- are calls of other systems; the heuristics by which research on the web plans and ranks, which
-- match regular expressions; and, so far, the handlers of guests and of single chats.
pub mod Prelude
pub mod Redis
pub mod Quota
pub mod Inference
pub mod Attachments
pub mod Guest
pub mod Runtime
pub mod Examples
pub mod Payload
pub mod Tools
pub mod Access
pub mod Artifacts
pub mod Chats
pub mod Research
