-- ===== src/Lib.antt =====
-- The EA trading system: an expert advisor (EA) in a trading terminal sends trade candidates, events
-- and heartbeats to a decision API, which authenticates them, decides candidates by a machine-learning
-- filter and a language model, and keeps everything in one DynamoDB table; and a pipeline prepares the
-- tick data on which strategies are tested.
--
-- Parts, under services/decision_api/src/decision_api:
--   * validation.py (parse_and_validate_request): Validation, over Json and Python.
--   * event_validation.py, heartbeat_validation.py: Telemetry, Heartbeat.
--   * auth.py (verify_request): Auth.
--   * service.py (DecisionService): Service; the protocols of ml.py and llm.py are its Providers.
--   * repository.py (DynamoRepository): Repository, over the interface of a table.
--   * ml.py: Ml. Features is feature_vector, Model is LinearJsonMlProvider, Artifact is S3MlProvider.
--   * llm.py: Llm. Prompt and OpenAi are OpenAiResponsesProvider, Reading is the parser of answers.
--   * handler.py, telemetry_handler.py, heartbeat_handler.py: Handler; its Clients make the providers.
--   * monitoring.py: Monitoring.
--   * errors.py: Errors.
-- Parts, under python/tickdata: Tickdata. Chunks is chunks.py, Model is model.py, HeaderRows is
-- iter_header_csv_rows of providers/base.py, Normalize is the loop of normalize.py and Stage its
-- run_normalize, Times is timeutil.py, Store is store.py, Download is download.py, Validate is the
-- loop of validate.py over lines, Convert is convert.py; a chunk is planned, downloaded,
-- normalized, validated and converted, with the manifest as the state between.
-- Prelude has the shared names; Act is the shape of all code with effects: a function from a world
-- to a result or an exception, and the next world. Tests applies the theorems to concrete inputs.
--
-- A world is any type: what is known of it is what a theorem's hypotheses say. Functions recurse on
-- their data. Two loops count instead: the plan of chunks has as many rounds as its range has days,
-- and the download as many attempts as the policy allows.
--
-- Parameters: the record Python has what the code takes from Python and its libraries (floats, the
-- JSON grammar, hashes, UUID and time parsing, encodings); FloatLaws is what the sigmoid relies on of
-- the floats. Table is boto3's table, with what DynamoDB documents of conditional writes and
-- consistent reads as the laws TableLaws. The providers of predictions and of model decisions are
-- arguments of Service; Outside is the transport, the clock and the key of the language model's
-- provider, and get_object is S3. Process has the environment variables, clocks and clients of a
-- running entry point; the gateway's event is a record of the four parts that are read. Calendar and
-- Zones are datetime and zoneinfo, Files is the file system, and Provider is the source of the ticks.
-- In Stage the rows of a file are read before their lines are written, and in Convert a file's text
-- is written when the file is closed.
--
-- Not modelled: UrllibTransport, which calls urllib; logs, the metrics of the entry points, and
-- the construction of boto3's clients; in python/tickdata the validation's loop over the chunks
-- and its report, the configuration and the sources of ticks; python/ml and python/analysis; the
-- EA itself (mt5), which is another language; infra and tools, which are declarations and scripts.
-- Python's RecursionError and texts with lone surrogates have no counterpart here.
pub mod Prelude
pub mod Errors
pub mod Act
pub mod Json
pub mod Python
pub mod Validation
pub mod Auth
pub mod Telemetry
pub mod Heartbeat
pub mod Service
pub mod Llm
pub mod Repository
pub mod Handler
pub mod Ml
pub mod Monitoring
pub mod Tickdata
pub mod Tests
