-- ===== src/Lib.antt =====
-- TorqPro AI: the governance log, the review of washer records, the question bank, and joints.
--
-- Four parts of the backend are modelled, which share the prelude.
--
-- 1. backend/governance: append-only governance events of aggregates (joints, documents, records)
--    in three lifecycles, review, publication and resolution.
--    Governance/Enums and Governance/Transitions are enums.py and transitions.py: the statuses, the
--    closed tables, membership in a table. Governance/Timestamps and Governance/Decisions are
--    models.py: the timestamp pattern as the module re matches it, the decisions with their
--    constructors, the required fields and the validators. Governance/Errors is exceptions.py,
--    Governance/Events is events.py. Governance/Store is `FileGovernanceEventStore` of store.py: a
--    state is the contents of the file, as far as `_read_raw` tells them apart, and whether a write
--    comes through. Governance/Service is service.py: the read accessors and
--    `_execute_transition`, which answers a known idempotency key, refuses a known decision, or
--    validates and appends; Governance/Service/Commands has the nine commands that call it, by lifecycle.
--    Governance/Log says without a store what a legal log is.
-- 2. backend/library/washer_resolution*.py: human decisions on washer records whose source is in
--    doubt, the evidence for them, and the closing of a resolution.
--    Washer/Records is washer_resolution.py, with the errors of all modules. Washer/Decisions is
--    washer_resolution_decisions.py and washer_resolution_decisions_store.py, Washer/Evidence
--    washer_resolution_evidence.py and its store, Washer/Closures washer_resolution_closure.py and
--    its store, Washer/Digests the checksums and the normalizing validators of these. Washer/Service
--    and Washer/Service/Closing are washer_resolution_service.py, whose operations change four
--    ledgers: `decide_resolution`, `record_resolution_evidence`, `close_resolution`, and the views.
--    Washer/Audit says without a service what a legal audit trail is, and Washer/Traces has the runs
--    of the service. Washer/Sync is backend/governance/adapters/washer_resolution_sync.py, with the map
--    of statuses of washer_resolution.py beside it: a decision becomes a command of part 1.
--    Washer/Reconciliation is washer_resolution_reconciliation.py, which does so with all decisions.
--
-- 3. backend/question_bank: bilingual questions in versions.
--    QuestionBank/Statuses is transitions.py, QuestionBank/Content schema.py, QuestionBank/Validator
--    validator.py, QuestionBank/Patch patch.py with the merge of `update_question`. QuestionBank/Store
--    is store.py: the contents are the list in the JSON file, and the tables are lists of rows.
--    QuestionBank/Service is service.py: transactions and the changes of a status;
--    QuestionBank/Service/Contents registers and updates contents, whose state is the file and the
--    tables together, and QuestionBank/Service/Removal deletes, restores and archives questions.
--    QuestionBank/Calls has the calls as data. A call meets an `Environment`: the clock, whether the
--    file can be replaced, once and once more, and whether the transaction commits.
--    QuestionBank/Lifecycle specifies what the status of a version may do.
-- 4. backend/joints, and backend/governance/adapters/joint_revision.py, joint_revision_query.py and
--    joint_revision_csv.py, which show its revisions.
--    Joints/Service and Joints/Revisions are joints/service.py over the rows of its tables;
--    Joints/Projection is the adapter, which maps the status of a revision to a review status of
--    part 1, with reads of the source that may fail; Joints/Query is the query, Joints/Csv the export.
--    Joints/Reader has a strict reader of comma-separated values (RFC 4180), and Joints/Reading says by
--    it what the export shows of the projections.
--
-- An operation is a function from a state to a result, which may be an error, and a state
-- (Prelude/Exec). The loops are recursion on lists and on texts, without fuel, but for the decimal
-- digits of an id (Prelude/Texts), whose fuel is the number, which division by ten uses up sooner.
-- Numbers are unbounded, as Python's are.
--
-- Parameters: `Backing` (Governance/Events) stands for pydantic, JSON and the metadata bags of the
-- events, and `Hashing` (Washer/Digests) for `json.dumps` and SHA-256; each says what is relied on.
-- `Lineage` (Washer/Sync) says that a dict of texts among those bags is read by its keys,
-- `Floats` (QuestionBank/Content) stands for the numbers of type float, `Snapshots` (Joints/Service)
-- for the module json on the snapshots of joints, and an argument `lower` for `str.lower`.
-- What `uuid4` and the clock give is an argument of the operation that asks for it.
--
-- Not modelled: locks, temporary files and caches (an operation is one step, and a read sees what
-- was written last), and failures of the file system under the washer ledgers, whose files hold
-- the records that were appended. In the question bank a float that JSON cannot hold, the type
-- affinity of a column and the statistics; in the joints a write that another connection makes in
-- the middle of a call, and failures of the database. Of the rest of the backend, the retrieval and
-- import of questions, the documents, the production validation and the web interface have no model
-- yet; the calculations are in floating point.
--
-- Examples has concrete stores, ledgers, decisions, questions and joints.
pub mod Prelude
pub mod Governance
pub mod Washer
pub mod QuestionBank
pub mod Joints
mod Examples
