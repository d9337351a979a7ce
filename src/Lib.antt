-- ===== src/Lib.antt =====
-- rules_proto: a gazelle extension that generates Bazel rules for protocol buffers. This library
-- models package pkg/protoc, the plugins of pkg/plugin, the rules of pkg/rule, and the parts of
-- pkg/language/protobuf that configure packages and feed the resolver.
--
-- The program: gazelle walks the packages of a repository. In each it gives the directives of
-- the build file to the package configuration, which holds plugins, rules and languages by name
-- and is cloned from the parent package. From the proto libraries of a package the plugins,
-- found in the registry by name, predict output files; these are merged to the sources of one
-- compilation, and the rules are generated. Libraries provide their imports to the resolver,
-- which is read from and saved to a file between runs and installed as overrides of gazelle, and
-- the dependencies of each rule are then resolved.
--
-- Base: shared types and lemmas. Texts are lists of bytes, maps are association lists
-- (Base.Dict) whose order stands for the order of iteration, sort.Strings is an insertion sort.
-- Go: what is used of the packages strings, path and strconv. White space is that of ASCII, and
-- a scanner of lines stops at a line of 64 KiB.
-- External: labels and regular expressions of other libraries, as a record of parameters.
-- Intent: pkg/protoc/intent.go.
-- Rewrite: pkg/protoc/rewrite.go; a file is the list of names it imports.
-- Dedup: DeduplicateAndSort of pkg/protoc/package.go.
-- Config.Plugin, Config.Rule, Config.Language, Config.Package: language_plugin_config.go,
-- language_rule_config.go, language_config.go, package_config.go and yconfig.go of pkg/protoc.
-- An operation returns the new state beside its error, since Go keeps what was written before an
-- error; an entry that Go shares by pointer is written back to its map.
-- Registry: pkg/protoc/registry.go; none stands for a panic.
-- Resolver: pkg/protoc/resolver.go, with its file in Resolver.Csv and the overrides of gazelle
-- in Resolver.Install. The loop over keys, and the early return on a missing map, read as the
-- lookup of an empty map.
-- Sources: plugin_configuration.go and protoc_configuration.go of pkg/protoc.
-- File: file.go and proto_enum_option_collector.go of pkg/protoc, from the statements that the
-- parser's walk reports.
-- Deps: pkg/protoc/depsresolver.go; the index of gazelle is a parameter.
-- Gazelle: rules of bazel-gazelle as kind, name and attributes by name, of which the last value
-- set is read.
-- Library: proto_library.go and other_proto_library.go of pkg/protoc.
-- RuleIndex: pkg/protoc/ruleindex.go.
-- Generation: getProvidedRules of pkg/protoc/package.go, over rule providers; Generation.Choice:
-- NewPackage, generateRules and libraryRules, over the registered implementations. A fatal log
-- is a result of its own, and the configuration that they write to is a state.
-- Compile: proto_compile.go, proto_compiled_sources.go, proto_descriptor_set.go and
-- syntaxutil.go of pkg/protoc.
-- Plugins: the predictions of the plugins in pkg/plugin; Plugins.Services those for services,
-- Plugins.TsProto that for TypeScript.
-- GoLibrary: pkg/rule/rules_go/go_library.go, with the merge of rules and the embedded
-- dependencies in child modules.
-- Scala: pkg/rule/rules_scala/scala_library.go.
-- Libraries: the rules for C++, Java, Python, JavaScript and TypeScript in pkg/rule.
-- Protobuf: config.go of pkg/language/protobuf; Protobuf.Flags: its CheckFlags, over the readers
-- of files and of Starlark code, with what it keeps in Protobuf.Flags.Kept; Protobuf.Sources and
-- Protobuf.Generate: generate.go and resolve.go; Protobuf.Override: override.go; Protobuf.Loads:
-- kinds.go.
-- GoPlugin: pkg/plugin/golang/protobuf/protoc-gen-go.go. The traversal of dependencies runs on
-- fuel: the number of sources and of all recorded dependencies, which is enough since each label
-- is put on the list at most once (GoPlugin.Fuel).
-- Tests: runs of the definitions, and the theorems at concrete inputs.
--
-- Not modelled: the step of GenerateRules from the providers of a package to its rules, of which
-- getProvidedRules is modelled alone, since it reads private attributes of the rules; the
-- declaration of the flags and the override rule of pkg/language/protobuf; the resolution of
-- Closure libraries; the imports that scalapb options add; the Starlark bridge, which converts
-- values of an interpreter; the commands and the test harness, which are I/O or copies of the
-- commands of bazel-gazelle; logging; and the backing arrays that slices share.
pub mod Base
pub mod Go
pub mod External
pub mod Intent
pub mod Rewrite
pub mod Dedup
pub mod Config
pub mod Registry
pub mod Resolver
pub mod Sources
pub mod File
pub mod Deps
pub mod GoPlugin
pub mod Gazelle
pub mod Library
pub mod RuleIndex
pub mod Generation
pub mod Compile
pub mod Scala
pub mod Plugins
pub mod GoLibrary
pub mod Libraries
pub mod Protobuf
pub mod Tests
