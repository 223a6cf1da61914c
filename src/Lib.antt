-- ===== src/Lib.antt =====
-- agentskills-go: a library that keeps a catalog of agent skills, sessions in which a language model
-- has some of them active, and the four tools that the model calls.
--
-- The parts and their files.
--   * spec/types.go, spec/provider_types.go, spec/errors.go: `Spec` (records, errors, tool
--     arguments, the `SkillProvider` interface as a record of functions), `Spec.Keys` (the three
--     identities of a skill with their equality) and `Spec.Frontmatter` (front matter values).
--   * internal/catalog/catalog.go: `Catalog`. `Catalog.State` is `entry`, `Catalog` and
--     `skillRecordFrom`; `Catalog.Names` is `recomputeLLMNamesLocked` with `shortHashDef`;
--     `Catalog.Ops` is `Add`, `Remove` and the lookups; `Catalog.Body` is `EnsureBody` with
--     `finishBodyLoad`. Proofs: `Catalog.Entries`, `Catalog.Handles`, `Catalog.Changes`,
--     `Catalog.Lifecycle`, `Catalog.Loading`, `Catalog.Cache`, and `Catalog.Interface`, where
--     the catalog fills the interface that sessions use. `Catalog.Listing` has `ListPromptIndexRecords` and
--     `ListUserEntries`, and `Catalog.Filters` their filters of internal/catalog/prompt.go.
--   * internal/catalog/promptxml.go: `Prompt`. `Prompt.Texts` has the functions, `Prompt.Lines` and
--     `Prompt.Bodies` are about them.
--   * internal/catalog/artifact.go: `Artifact`. `Artifact.Insert`, `Artifact.Names`,
--     `Artifact.Placeholders` and `Artifact.Body` are the functions; `Artifact.Inserts`,
--     `Artifact.Rendering` and `Artifact.Results` are about them.
--   * internal/session/session.go and tools_impl.go: `Session`. `Session.State` is the session
--     object with `pruneKey`, `pruneKeys` and `activeHandlesLocked`; `Session.Activate` is
--     `ActiveKeys` and `ActivateKeys`; `Session.Tools` is `toolLoad`, `toolUnload`, `toolRead` and
--     `toolRunScript`. Proofs: `Session.Consistent`, `Session.Commit`, `Session.Follows`,
--     `Session.Linear`, `Session.Success`, `Session.Effects`, `Session.Access`,
--     `Session.Kept`.
--   * internal/session/store.go: `Store`. `Store.State` is the store with its evictions and
--     `Store.Ops` its operations. Proofs: `Store.Recent`, `Store.Evict`, `Store.Valid`,
--     `Store.Uses`, `Store.Pruning`, `Store.Create`.
--   * runtime.go and skillprompt.go: `Runtime`. `Runtime.New` is `New` with its options and
--     `ProviderTypes`; `Runtime.Calls` is `AddSkill`, `RemoveSkill`, `ListSkills`, `NewSession`,
--     `CloseSession` and `RenderSkill`; `Runtime.ToolCalls` is `NewSessionRegistry` and the tools of
--     a session in the store; `Runtime.Prompt` is `SkillsPrompt`; `Runtime.Filters` is
--     `normalizeSkillListFilter`. Proofs: `Runtime.Removal`, `Runtime.Sound`, `Runtime.Kept`,
--     `Runtime.ToolsSound`, `Runtime.Histories`, `Runtime.Sections`, `Runtime.Providers`.
--   * document.go: `Document`. `Document.Limits` has the limits and the reasons to refuse a document,
--     `Document.Lines` lines and bodies, `Document.Values` the decoded fields, `Document.Items` the
--     optional fields, `Document.Checks` is `ValidateSkillDocument`, `Document.Parse`
--     `ParseSkillDocument`, and `Document.Write` `MarshalSkillDocument` and `RenderSkillDocument`.
--     Proofs: `Document.Ends`, `Document.Split`, `Document.Truncate`, `Document.Bodies`,
--     `Document.Kept`, `Document.Tagged`, `Document.Shown`, `Document.Accepted`, and
--     `Document.Written`, `Document.Reread`, `Document.RereadTags`, `Document.Encoded`,
--     `Document.RoundTrip` on what is written.
--   * fsskillprovider/provider.go: `FsProvider`. `FsProvider.System` is what it uses of the operating
--     system and of llmtools-go, `FsProvider.Config` is `New` with its options, `FsProvider.Roots`
--     `canonicalRoot` and `loadSkillBody`, `FsProvider.Resources` `indexSkillResources`, and
--     `FsProvider.Calls` the operations of the provider. Proofs: `FsProvider.Indexed`,
--     `FsProvider.Bounds`, `FsProvider.Scripts`.
--   * `Base` and `Text` hold what the components share: tests, maps and sets as lists, slices, and
--     what the program uses of Go's `strings` and `sort`.
--   * `Tests` has runs at small inputs, and each theorem at an input where its conditions hold.
--
-- How the parts interact. The store makes sessions and gives each a touch function that marks it as
-- used; a session reads the catalog through an interface, here the record `Session.State.Catalog`,
-- and calls providers for an active skill. The host removes a skill from the catalog and then has
-- the store prune it from every session.
--
-- Choices of the model.
--   * A string is the list of its bytes. `strings.TrimSpace` knows the white space of Unicode by
--     its UTF-8 bytes. `strings.ToLower` is exact where its result is compared with ASCII text.
--   * An error is the sentinel that `errors.Is` finds in it; its message is dropped. A provider's own
--     error is `other`.
--   * Maps are association lists, sets are lists of keys, and the order in which Go walks a map is
--     the order of the list. Nil and empty slices are the same.
--   * Time is a number of nanoseconds that each operation takes as an argument; a duration is an
--     integer. `stateVersion` is a 64-bit word and wraps around.
--   * Concurrency: what an operation does under a lock is one function. `ActivateKeys`, `ActiveKeys`
--     and `EnsureBody` give up their locks, and what other goroutines do in between is an argument:
--     `Interference` (one for each round and place) and `between` on a session and the catalog,
--     `Around` on the catalog, and `meanwhile` on the store, which is where a session is closed.
--     A theorem that has such an argument holds for the interleavings that meet its conditions.
--     `Rely` asks that the others keep the session consistent, its bound as it is, and its version
--     counted up with every change of its active list, with fewer than 2^62 changes in a stretch;
--     `Session.Follows` shows this for `pruneKey`, `pruneKeys`, and the locked parts of the tools
--     and of the commit. `Keeps` and `KeepsLinked` ask that they keep the catalog linked, and
--     `KeepsSound` and `KeepsValid` that they keep sessions consistent and the store valid, as the
--     operations of the catalog and of the store are shown to do. Inside
--     `ActivateKeys` the calls of `EnsureBody` stand for undisturbed ones (`alone`): what others do
--     while the bodies load is put before them (`mid`) and after them (`late`). The lookups of
--     one call that are not named here read one catalog: a change of the catalog between two lookups of `ActiveKeys`, of a tool
--     or of `NewSession`, and one while `ListSkills` or `SkillsPrompt` lists it, is not modelled.
--   * A store's list holds session ids, and the session objects stand in a heap by id, since a
--     caller may keep a session that the store has dropped.
--   * The YAML decoder and encoder of a document and the quoting of `%q` are arguments. What is decoded
--     from encoded fields is a condition of the theorem on it (`Document.Encoded.IsDecoded`). A value
--     of the fields is a `Spec.Value`; the message of a refused document is a `Flaw`.
--   * The file system, with the functions of `path/filepath`, and the tools of llmtools-go are records
--     of functions. `filepath.WalkDir` is the list of the calls that it makes of its callback.
--   * `sha256.Sum256` in hexadecimal, the id generator, the providers and the registry of
--     providers are arguments.
--
-- Loops. `ActivateKeys` and `EnsureBody` have five rounds in the code, and five here. The loop of
-- `evictOverLimitLocked` runs for as many rounds as the list has elements, which is enough since each
-- round drops one, and that of `truncateValidUTF8` for as many as the limit has bytes, for the same
-- reason. All other loops are recursions over a list.
--
-- Not modelled: the registry object of llmtools-go that `NewSessionRegistry` makes, the tool
-- descriptions and rule texts of spec (constants), the logger, nil contexts and receivers, and the
-- file system and llmtools-go themselves.
pub mod Base
pub mod Spec
pub mod Text
pub mod Artifact
pub mod Prompt
pub mod Session
pub mod Store
pub mod Catalog
pub mod Runtime
pub mod Document
pub mod FsProvider
pub mod Tests
