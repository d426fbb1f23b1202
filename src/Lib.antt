-- ===== src/Lib.antt =====
-- A verification library for Skeema, a tool that compares MySQL and MariaDB schemas kept as files
-- with live ones and writes the statements that bring one to the other.
--
-- The core of the program is the Go package internal/tengo. It reads the objects of two schemas
-- into structs, compares them (Table.Diff and its helpers), keeps each difference as a list of
-- clauses, splits and orders the resulting diffs (NewSchemaDiff), and writes each as a statement
-- subject to StatementModifiers, refusing unsafe ones with a ForbiddenDiffError. It also splits the
-- text of the files into statements (ParseStatements). Around it, internal/fs collects the statements
-- of a directory into logical schemas, internal/applier plans, prints and runs the statements of a
-- diff, directly or through a shell command that internal/util builds, and internal/linter looks for
-- problems. This library models the core and parts of those packages. Which file models which part:
--   Prelude      shared notation: native numbers, Boolean tests with an Eq interface, lists over
--                native numbers, and strings as lists of bytes.
--   Escape       internal/tengo/util.go: EscapeIdentifier, EscapeValueForCreateTable.
--   Flavor       internal/tengo/flavor.go: Version and Flavor comparison; Flavor/Parse: their
--                reading and printing; Flavor/Capability: the methods that say what a flavor
--                supports. A version component is a uint16 and packing into a uint64 keeps its
--                wrap-around.
--   Lis          internal/tengo/util.go: longestIncreasingSubsequence. The slices that the Go code
--                writes in place are lists that are updated at an index.
--   Objects      the structs of column.go, index.go, foreignkey.go, check.go, partition.go,
--                table.go, routine.go and schema.go in internal/tengo; Objects/Compare: Equals and
--                Equivalent; Objects/Define: the Definition methods; Objects/Create: the CREATE,
--                ALTER and DROP texts of whole objects.
--   Clause       internal/tengo/alterclause.go: a constructor per clause; Clause/Write: the Clause
--                methods; Clause/Types and Clause/Unsafe: the Unsafe methods, whose regular
--                expressions are functions on bytes.
--   Table        internal/tengo/table.go, Table.Diff: Table/ByName (the maps by name),
--                Table/Columns, Table/Indexes, Table/Constraints (foreign keys and checks),
--                Table/Partitions (partition.go) and Table/Compare (the rest, and the whole).
--                Table/Indexes/Replay says what the clauses on indexes do to a list of indexes.
--   Diff         internal/tengo/diff.go: the diffs and their errors; Diff/Parse: ParseCreateAutoInc
--                and ParseCreatePartitioning of util.go; Diff/Split: SplitAddForeignKeys,
--                SplitConflicts, PreDropAlters; Diff/Statement: TableDiff.Statement; Diff/Schema:
--                compareTables, compareRoutines, and database diffs;
--                Diff/Routine: RoutineDiff.Statement.
--   Lexer        internal/tengo/lexer.go: the Lexer and its tokens; Lexer/Runes: the bytes and runes
--                it tells apart; Lexer/Filler and Lexer/Words: its loops; Lexer/Scanning: Scan and
--                ScanBOM.
--   Statement    internal/tengo/statement.go: Statement and its methods.
--   Parser       internal/tengo/parser.go: the parser's state, tokens and positions; Parser/Names:
--                names in tokens; Parser/Sequences: nextTokens and the searches in token lists;
--                Parser/Processors and Parser/Creates: the statement processors;
--                Parser/Statements: nextStatement and ParseStatements.
--   Fs           internal/fs/logicalschema.go: LogicalSchema, AddStatement, LowerCaseNames;
--                Fs/Contents: the part of parseContents in internal/fs/dir.go that follows the parse
--                of the files.
--   Shell        internal/util/shellout.go and shellout_unix.go: NewInterpolatedShellOut, ShellOut and
--                the quoting of values; Shell/Quoting has the quoting rules of a POSIX shell.
--   Applier      internal/applier: Applier/Modifiers (StatementModifiersForDir), Applier/Ddl and
--                Applier/Ddl/Plan (ddlstatement.go), Applier/Apply and Applier/ApplyTarget
--                (applier.go and processSQL of target.go), Applier/Verify (verifier.go), Applier/Printer
--                (printer.go); Applier/Printer/Reading has a client that reads the printed text.
--   Linter       internal/linter: Linter/DupeIndex is check_dupe_index.go, Linter/Results is CheckSchema
--                of linter.go with result.go.
--   Exit         exit.go: exit codes of errors, and the highest of several; an exit code is not
--                negative.
--   Tests        runs at concrete inputs; Tests/Sql, Tests/Flavors and Tests/Exits:
--                those of the lexer and the parser, of the reading of flavors, and of exit codes;
--                Tests/Directories, Tests/Commands, Tests/Plans, Tests/Verify and Tests/Lint: those of Fs, of Shell,
--                and of Applier and Linter.
-- Table.Diff calls the comparisons of Objects and Lis, its result is the list of clauses that an
-- AlterTable keeps, Diff/Schema splits and orders these, and Diff/Statement writes each one with
-- Clause/Write and judges it with Clause/Unsafe. In the other direction, the parser splits the text
-- of a file into statements with the lexer's tokens; names that Escape has quoted come back to it,
-- and Fs keeps these statements by the key of their object. Applier/ApplyTarget takes the diffs of
-- Diff/Schema, has Applier/Ddl/Plan make a statement of each with Diff/Statement and, for a wrapper
-- command, with Shell, and runs them if no plan failed.
--
-- A pointer that may be nil is an Option. Go ranges over maps in no fixed order: such an order is
-- an argument (MapOrder), with no condition on it but where a theorem states one. Every loop over a
-- list is structural recursion on it. The parser's loops over tokens, over DEFINER clauses and over
-- statements run on fuel: one more round than there are tokens at hand and bytes left, since every
-- round takes one; a loop without fuel sets the error out_of_fuel, which the code does not have.
-- Case mapping and digits are those of ASCII. The lexer is modelled on a reader that has been read
-- to its end. That is so from the first Scan on if the input is shorter than 4096 bytes, half the
-- buffer; for longer inputs its refills are left out, and so are errors of the reader other than
-- io.EOF. The offset of a token, a uint32 of the code, has no bound. Four panics are left out:
-- Table.Diff on tables with different names, where table_diff does not look at the names;
-- PreDropAlters on a RANGE or LIST table with no partition, where pre_drop_alters gives no diff; the
-- Clause methods of AddColumn and ModifyColumn on a column that is both first and after another,
-- which Table.Diff does not make, where position_clause says FIRST; and Index.Definition on a primary
-- key that is not unique, where index_type_and_name says PRIMARY KEY.
--
-- The maps of Fs are association lists in the order of the range. What other libraries and the server
-- answer is a parameter: options (Config), the sizes of tables and what TableHasRows says (Instance),
-- RealConnectOptions and the word wrap (Surroundings), introspection, the number of the linter's
-- errors and each execution (Environment), what a workspace makes of a logical schema (VerifyEnv),
-- the objects of a workspace and the rules' checkers (Checking), and which statements are
-- ignored. A size in bytes is a uint64 that the code converts to an int64, so from 2 ^ 63 on it is
-- below every size.
--
-- Not modelled: the keyword lists of internal/tengo, introspection and connections, Docker, the
-- packages workspace and dumper under internal, the search for targets in internal/applier, the
-- other checks and the order of annotations in internal/linter, files, option files and hosts in internal/fs,
-- options, passwords and the terminal in internal/util, the commands of the main package, and
-- vendored libraries. Most of these are input and output or calls of other libraries; the rest is
-- still to be modelled.
pub mod Prelude
pub mod Escape
pub mod Flavor
pub mod Fs
pub mod Linter
pub mod Lis
pub mod Objects
pub mod Clause
pub mod Table
pub mod Diff
pub mod Lexer
pub mod Shell
pub mod Statement
pub mod Parser
pub mod Applier
pub mod Exit
pub mod Tests
