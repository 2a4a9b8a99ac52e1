-- ===== src/Tests/Runs.antt =====
-- Two runs of a kernel: `a := 1`, and then `a`.
use noted_runner.Prelude.{
  ℕ, ◌+◌, ◌≡◌, refl, true, none, err, some, Text, ascii, ok, text_eq, contains, lookup, insert,
  if◌then◌else◌,
}
use noted_runner.Strings.{itoa}
use noted_runner.Preproc.Block.{new_block, new_kernel_types, mark}
use noted_runner.Preproc.LineType.{parse_line_type}
use noted_runner.Preproc.Scan.{parse}
use noted_runner.Preproc.Scan.Mentions.{mentions}
use noted_runner.Preproc.Export.{reuse_line}
use noted_runner.Preproc.Export.Layout.{Layout}
use noted_runner.Preproc.Export.Typed.{typed_line}
use noted_runner.Usecase.{Host, Sys, continue, run_block, prepare, launch}
use noted_runner.Usecase.Failed.{numbered_run, variable_unwritten}
use noted_runner.Usecase.Compiled.{Compiled, run_block-Compiled}
use noted_runner.Usecase.Carried.{variable_reused}
use noted_runner.Tests.Carried.{assign_then_read, assigned, read_block}
use noted_runner.Tests.Kernels.{host, kernel_with}

-- the document of a block is known by the path of its file
abbrev two_documents : Host ℕ
two_documents = record host {
  tools = assign_then_read;
  read_file = λ path n. (ok path, n + 1);
  document_text = λ file.
      if text_eq file (ascii "/mnt/k/block_b2") then some (ascii "a") else some (ascii "a := 1");
}

abbrev first_run : Sys ℕ
first_run = kernel_with new_kernel_types

abbrev behind_first : Sys ℕ
behind_first = (run_block two_documents (ascii "k") (ascii "b1") (ascii "u") first_run).1

abbrev behind_second : Sys ℕ
behind_second = (run_block two_documents (ascii "k") (ascii "b2") (ascii "u") behind_first).1

run_block-Compiled_example :
    Compiled two_documents (ascii "k") (ascii "b1") (ascii "u") first_run behind_first
unfolding run_block lookup text_eq continue parse new_block mark parse_line_type
run_block-Compiled_example =
    run_block-Compiled two_documents (ascii "k") (ascii "b1") (ascii "u") first_run behind_first
      refl

variable_reused_example :
    (assigned.types ≡ assigned.types)
    × (ty : Text) × (p : Layout host.order assigned (ascii "at1")) × (q : Layout host.order
        read_block
        (ascii "at1"))
    × (lookup (ascii "a") assigned.types.vars ≡ some ty)
    × (contains (ascii "a") p.written_vars ≡ true)
    × (contains (ascii "a") q.read_vars ≡ true)
    × (reuse_line (ascii "varsMap") read_block.types.vars (ascii "a")
        ≡ typed_line (ascii "varsMap") (ascii "a") ty)
unfolding run_block itoa lookup text_eq parse new_block mark parse_line_type continue insert
    contains mentions
variable_reused_example =
    variable_reused two_documents (ascii "k") (ascii "b1") (ascii "b2") (ascii "u") (ascii "a")
      first_run behind_first behind_second
      (record {
        text = ascii "a := 1";
        document = record {
          file = ascii "/mnt/k/block_b1";
          read_at = 0;
          read = refl;
          loaded = refl;
        };
        types = new_kernel_types;
        block = assigned;
        attempt = ascii "at1";
        before = 2;
        counted = refl;
        known = refl;
        parsed = refl;
        learned = refl;
        launched = record {
          source = _;
          plugin = _;
          url = _;
          at_source = refl;
          at_plugin = refl;
          at_url = refl;
          written = refl;
          built = refl;
          answered = refl;
          ended = refl;
        };
      })
      (record {
        text = ascii "a";
        document = record {
          file = ascii "/mnt/k/block_b2";
          read_at = 0;
          read = refl;
          loaded = refl;
        };
        types = assigned.types;
        block = read_block;
        attempt = ascii "at1";
        before = 8;
        counted = refl;
        known = refl;
        parsed = refl;
        learned = refl;
        launched = record {
          source = _;
          plugin = _;
          url = _;
          at_source = refl;
          at_plugin = refl;
          at_url = refl;
          written = refl;
          built = refl;
          answered = refl;
          ended = refl;
        };
      })
      (refl, (refl, (refl, (refl, tt)))) refl refl refl

-- the source of the first block is not accepted
abbrev bad_first : Host ℕ
bad_first = record two_documents {
  go_build = λ out file n. (
    (if text_eq file (ascii "/mnt/k/u/block_b1.go")
        then some (ascii "exit status 1", ascii "syntax error")
        else none),
    n + 1,
  );
}

abbrev behind_bad : Sys ℕ
behind_bad = (run_block bad_first (ascii "k") (ascii "b1") (ascii "u") first_run).1

abbrev behind_reading : Sys ℕ
behind_reading = (run_block bad_first (ascii "k") (ascii "b2") (ascii "u") behind_bad).1

abbrev prepared_first : Sys ℕ
prepared_first =
    (prepare bad_first (ascii "/mnt") (ascii "k") (ascii "b1") (ascii "u")
      (numbered_run bad_first (ascii "k") (ascii "b1") (ascii "u") first_run)).1

abbrev build_error : Text
build_error = ascii "error running go build: exit status 1\nOutput: syntax error"

variable_unwritten_example :
    ((run_block bad_first (ascii "k") (ascii "b1") (ascii "u") first_run).0
      ≡ some (err build_error))
    × (ty : Text) × (q : Layout host.order read_block (ascii "at1")) × (lookup
          (ascii "a")
          assigned.types.vars
        ≡ some ty)
    × (contains (ascii "a") q.read_vars ≡ true)
    × (reuse_line (ascii "varsMap") read_block.types.vars (ascii "a")
        ≡ typed_line (ascii "varsMap") (ascii "a") ty)
unfolding run_block itoa lookup text_eq parse new_block mark parse_line_type continue insert
    contains mentions prepare launch
variable_unwritten_example =
    variable_unwritten bad_first (ascii "k") (ascii "b1") (ascii "b2") (ascii "u") (ascii "a")
      build_error first_run prepared_first behind_reading assigned
      (record {
        text = ascii "a";
        document = record {
          file = ascii "/mnt/k/block_b2";
          read_at = 0;
          read = refl;
          loaded = refl;
        };
        types = assigned.types;
        block = read_block;
        attempt = ascii "at1";
        before = 6;
        counted = refl;
        known = refl;
        parsed = refl;
        learned = refl;
        launched = record {
          source = _;
          plugin = _;
          url = _;
          at_source = refl;
          at_plugin = refl;
          at_url = refl;
          written = refl;
          built = refl;
          answered = refl;
          ended = refl;
        };
      })
      refl refl refl (refl, (refl, (refl, (refl, tt)))) refl refl refl
