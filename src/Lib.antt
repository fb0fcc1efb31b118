-- ===== src/Lib.antt =====
-- A verification of db-connections, a library that stores, validates, checks and shows connections
-- to databases, queues and file servers.
--
-- A client calls `ConnectionService` with a draft or a patch. The service asks the ownership
-- resolver and the access policy, validates against the registered type, and works on a unit of
-- work, whose repository writes rows of a table in which secrets are encrypted and driver options
-- carry the name of their class. What is read back is a record, with an issue for every column that
-- could not be read, and clients are shown a public or a broken view of it.
--
-- Shared modules
--   Prelude, Dict, Dict/Keyed, Sorting, Int, Value: Python's dictionaries (in insertion order),
--     `sorted`, integers and JSON values, over the native numbers and texts.
--   Errors: errors.py. Result: a call that may raise. Exec: a call that may raise and changes a
--     store; what was written before a raise stays written. Exec/Preserves: calls that leave an
--     observation of the store alone, always or if they raise.
-- Parts of the program (paths below db_connection/)
--   Domain (Entities, Specs, Patch, Record): domain/entities/*.py, domain/specs.py, domain/drivers.py.
--   Registry (Invariant, Lookup, Copy, Defaults): registry/base.py, registry/defaults.py.
--   DriverOptions (Acceptance, Public): application/_driver_options.py.
--   Validation (Contract, Failures, Stable): application/validation.py, `validate`.
--   Projection (ReadView, Parts, Laws): application/public_projection.py, `build` and `build_any`.
--   Service: application/service.py. Ports has the protocols of policies.py, ownership.py, uow.py
--     and domain/repositories.py as records; Helpers the private methods; Operations `create`,
--     `list`, `get`, `update`, `delete`, `check_payload` and `check_stored`; Steps, Transactions,
--     Merging and Repair the proofs.
--   Infra: runtime/encryption.py (Encryption), infra/sa_types.py (OptionsColumn), infra/models.py
--     (Rows), infra/record_mapper.py (Mapper), infra/repositories.py (Repository), and
--     infra/unit_of_work.py (UnitOfWork), over a database session given as a parameter (Session).
--   Connectors: connectors/ftp.py (Ftp, Ftp/Client, Ftp/Checking; Sftp, Sftp/Checking),
--     connectors/sql.py (Sql, Sql/Query, Sql/Urls, Sql/Checking), connectors/kafka.py (Kafka, Kafka/Checking) and
--     connectors/s3.py (S3). Stripping has Python's `strip`.
--   Api: fastapi/mapper.py, with Responses, which also has the helpers of fastapi/extension.py;
--     Routes and Listings: the handlers of its routes. Builder: fastapi/builder.py; Builder/Building,
--     Builder/Given and Builder/Built the proofs.
--   Compat: the layer that keeps the first version's names and storage, compat/encryption.py
--     (Encryption), compat/url_builder.py (Urls; Urls/Texts and Urls/Agreement the proofs),
--     compat/runtime_bridge.py (Bridge),
--     compat/manager.py (Manager), compat/connectors/ (Connectors), compat/sa_types.py (Columns),
--     compat/connection_properties.py (Properties, FtpProperties) and compat/routes.py (Routes), whose
--     statements are Statements, whose session is Orm and whose rows are RowModel; Routes/Ownership
--     the proofs. Router: compat/router.py with compat/utils/sa.py; Router/Sharing: two of them.
--   Runtime: runtime/settings.py, the service that follows its settings.
--   Dsl: dsl/loader.py. Config has the models, References `_resolve_reference` and its callers,
--     Specs `_build_driver_specs` and the specs of entries, Applying `apply_dsl_registry`;
--     Loading `load_dsl_file`; Invariant and Completeness the proofs. Plugins: plugins.py.
--   Linting: tools/pylint_plugins/no_large_inline_collections.py (below the repository's root).
--   System: the service over the SQL unit of work, where one call reads what another committed;
--     Answers: the same of requests.
--   Tests: data, a session over a table in memory, and the theorems at concrete inputs.
--
-- Parameters. Code of other packages is given: pydantic models by their `model_validate` and dumps,
-- json and Fernet by their functions, SQLAlchemy's session and ftplib by their calls, each a step on
-- a state; imports and entry points by what they find. What is relied on of them is a hypothesis
-- where a theorem needs it (IsLossless, IsIsolated, IsFaithful, IsDurable, IsSelecting, IsStable,
-- IsReading, IsTame). Access policies and ownership resolvers are given as functions that may raise.
-- A commit, a rollback and the end of a session may raise as well; what the end of a unit of work
-- raises takes the place of the block's outcome. Awaits of one call are sequential; calls that run at
-- once are not interleaved.
-- Loops are structural recursion, so there is no fuel but the number of rounds of `str` of an
-- integer, which exceeds the number of its digits.
--
-- Not modelled: of the HTTP API (fastapi/) the making of schemas and of FastAPI's router; of the
-- compatibility layer its metaclass and the signatures of its routes, which are made at run time; the
-- demo application; the scripts; logging. Times and clients are opaque numbers, floats do not occur, and
-- the sets of capabilities and tags are lists.
pub mod Prelude
pub mod Dict
pub mod Sorting
pub mod Int
pub mod Value
pub mod Errors
pub mod Result
pub mod Domain
pub mod Registry
pub mod DriverOptions
pub mod Validation
pub mod Projection
pub mod Exec
pub mod Service
pub mod Infra
pub mod Plugins
pub mod Dsl
pub mod Runtime
pub mod Compat
pub mod Connectors
pub mod Api
pub mod System
pub mod Linting
pub mod Tests
