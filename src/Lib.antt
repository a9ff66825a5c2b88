-- ===== src/Lib.antt =====
-- The uptime monitor agent: the core of the packages model and monitor, its store and its decisions.
--
-- The agent mirrors its checks from a server into SQLite (monitor/store.go, ApplyChecksDelta), runs each
-- at the slots of a schedule that the monitors of a check share (monitor/schedule.go), judges what the
-- checkers return (model/model.go), discards failures while its own uplink is down (monitor/gate.go,
-- monitor/runner.go), buffers the results in SQLite and uploads them in batches (monitor/reporter.go).
-- Under the strict policy it refuses internal targets (model/restricted.go). An agent enrols, pulls its
-- checks once and then starts these loops (monitor/agent.go, monitor/sync.go); the program also tests,
-- imports and exports checks from the command line (monitor/testcheck.go, cmd/monitor/main.go).
--
-- Files:
--   Prelude            the shared names; Prelude/Lists, Int, Text and Tests are lists, integers, byte
--                      strings and Boolean tests over the native numbers
--   Model/Check        the types Check and Result, the constants, and time.Time (model/model.go)
--   Model/Verdict      Timeout, Negated, MatchContent, StatusCodeAcceptable, ResponseTimeExceeded,
--                      CertExpiryExceeded, InvertPassed (model/model.go); Rules: their decisions
--   Model/Content      TruncateContent, SampleContent (model/model.go); Cut: where they cut
--   Model/Timestamp    FormatTimestamp (model/model.go); Order: how its texts compare
--   Model/Display      RedactedURL, HeaderLines (model/model.go), redactProxyURL (cmd/monitor/main.go)
--   Model/Addr         netip.Addr and the predicates of net/netip; Ranges: ranges of addresses
--   Model/Restricted   RestrictedURL, RestrictedAddr (model/restricted.go); Table and Hosts: their rules
--   Model/Dial         PinnedDialContext (model/restricted.go); Safety: what it dials
--   Schedule           monitor/schedule.go; Words: int64; Grid: the slots of a check; Rotation: how the
--                      monitors of a check share them
--   Store/Tables       the tables of monitor/migrations/, and SQLite's refusals as a sequence of Booleans
--   Store/Headers      EncodeHeaders, DecodeHeaders (model/model.go)
--   Store/Delta        ApplyChecksDelta (monitor/store.go); Mirror, Mirror/Sync, Mirror/Private,
--                      Mirror/Server, Mirror/Success, Mirror/Distinct: the table checks as a map
--                      from guids
--   Store/Import       ImportPrivateCheck; Content: what it sets
--   Store/Buffer       BufferResult, ListUnsent, CountUnsent, MarkSent, PurgeSentOlderThan; Backlog: the
--                      unsent results as a queue; Orphans: results of a deleted check
--   Store/Query        GetIdentity, SetIdentity, GetLastSyncedAt, scanCheck and the three listings; Identity:
--                      the first two
--   Store/Valid        the invariant of the database; Valid/Keys and Valid/Results: the
--                      results buffer
--   Reporter           monitor/reporter.go; Drain: that reportOnce ends and accounts for all; Run: what
--                      the loop around it leaves
--   Gate               the connectivity gate (monitor/gate.go); Outage: what it reports
--   Egress             the egress policy (monitor/egress.go); Rules: what it lets through
--   Runner             execute and the status transitions (monitor/runner.go); Recording: what is kept;
--                      StoredForm: in which form
--   Runner/Reconcile   sameDefinition, reconcile, Run (monitor/runner.go); Current and
--                      Definition: what stays scheduled;
--                      Balance and Stopped: the goroutines that are started and cancelled
--   Runner/Loop        scheduleLoop (monitor/runner.go); Grid: the slots that it executes
--   Checker            what the checkers share; Checker/Http, Tcp and Tls: their runs (monitor/runner.go,
--                      monitor/tcp_checker.go, monitor/tls_checker.go); Registry and Scheme: the
--                      registered checkers and the routing by scheme (monitor/registry.go)
--   Checker/Verdicts   when a run passes; Checker/Strict: what a run touches under the strict policy;
--                      Checker/Tcp/Banner: the loop of readBanner
--   Client             monitor/client.go and model/api.go
--   Retry              the loop with a growing wait of enrollWithRetry and WaitForInitialSync; Waits
--   Sync               monitor/sync.go; Initial: how the first sync ends
--   Agent              Config, Run up to its loops, runStatusLoop (monitor/agent.go); Enrolment and Ready: how
--                      enrollWithRetry and the startup end; Wiring: with what; Jitter: jitter
--   System             Run from its loops on (monitor/agent.go): the goroutines as a step relation;
--                      System/Threads: the goroutines cut into steps; Alone, Alone/Steps and
--                      Alone/Reports: the steps of one, with nothing between them; Rows, Delivery,
--                      Delivery/Statements, Delivery/Reports, Origin, Origin/Stored and Origin/Executions: the rows of
--                      the results buffer; Semaphore, Flush and Valid: what the goroutines
--                      share; Drain: what can always be uploaded
--   CheckFile          monitor/testcheck.go: the files and exports; Report: the tests; Verdict: a test and
--                      the daemon; RoundTrip: an export that is imported again
--   Migrate            Apply (internal/migrate/migrate.go); Once: what runs
--   Command            splitCSV, envOr, envInt (cmd/monitor/main.go), monitor/proxy.go; Files: the commands
--                      on check files; Flags: the choice of a mode; Modes: when the daemon runs; Main: main
--   Tests              the theorems on concrete inputs
--
-- State and errors. A method that changes the store maps a Db to a result and a Db; a statement that
-- SQLite refuses is a Boolean of the argument Faults, and a transaction that fails leaves the Db. A
-- lock makes a method one step. Runner, Reporter and Sync run an execution, a report or a sync whole. In
-- System they are cut wherever another goroutine can come between: BufferResult into its two statements,
-- reportOnce before each call on the database and the server, syncOnce likewise. A step of System names
-- the goroutine and what it meets, and every order of steps is a run, also those of goroutines that have
-- been cancelled. The list `stored` and the list `confirmed` are histories, which no step reads. Clock
-- readings are arguments.
--
-- Bounds and fuel. An int64 is an integer that every operation wraps (Schedule/Words). Integers that
-- the code only stores and compares are unbounded. The loop of reportOnce takes fuel; the length of the
-- backlog and one more is enough, since every round that goes on takes 500 results; the same rounds are
-- counted for the steps of the reporter, and an execution has five steps. readBanner takes one more
-- than the room of its buffer, which is enough if every round fills some of it or if the deadline passes
-- before as many rounds. The loops that try again take one
-- more than the number of the attempt that ends them. scheduleLoop takes enough for the steps of the
-- grid up to the last reading of the clock. The other loops are structural.
--
-- Parameters. JSON, URL and address parsing, Addr.String, the resolver, the dialer, connections, TLS
-- handshakes, what net/http does with a request, the calendar of package time, os.Getenv, strconv.Atoi,
-- the migration scripts, the equality of header maps, %q and ToValidUTF8 are arguments of the definitions
-- that use them. The text of a time in the database is the time that it stands for.
--
-- Not modelled: package flag and its defaults that are read as they are, the texts that a command prints
-- on an error, and the tickers around the loops. In System a reconciliation after its query is one step,
-- and the status loop, which only reads, has none. Logging is left out everywhere. Letters and white
-- space are those of ASCII where the code lowers or trims a text. scheduleLoop reads the clock once as it
-- skips missed slots. The public hosts of the egress rules are those without a zone. The constants of
-- model/model.go that only the server's forms use have no code here.
pub mod Agent
pub mod Prelude
pub mod Model
pub mod Schedule
pub mod Store
pub mod Reporter
pub mod Gate
pub mod Egress
pub mod Checker
pub mod Client
pub mod CheckFile
pub mod Migrate
pub mod Command
pub mod Retry
pub mod Sync
pub mod System
pub mod Runner
mod Tests
