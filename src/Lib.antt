-- ===== src/Lib.antt =====
-- OneTool is a set of small C programs and the libraries under them. This library models its
-- static linker, `tools/dev/mlink`, with the ELF parser that the linker uses, `libs/elf`, the
-- software side of its rendering library, `libs/srapi`, and the URL parser and the
-- robots.txt rules of `libs/net`.
--
-- The linker's parts, in the order in which `main` of tools/dev/mlink/cli.c calls them:
--   Mlink.Args    tools/dev/mlink/cli.c, object.c: the command line (`parse_args`).
--   Mlink.Input   tools/dev/mlink/object.c: objects and archives of objects (`ml_load_input`,
--                 `load_archive`).
--   Elf           libs/elf/elf.c: `ot_elf_parse` reads the section table (`parse`).
--   Mlink.Reader  tools/dev/mlink/elf-reader.c: sections, symbols and relocations of an object
--                 file (`load_sections`, `load_symbols`, `load_relocs`, `parse_elf_object`).
--   Mlink.Macros  tools/dev/mlink/macro.c: the directives of .mlink.macro sections; `Parse` reads
--                 them, the parent carries them out before, at and after the layout.
--   Mlink.Select, Mlink.Resolve, Mlink.Symtab
--                 tools/dev/mlink/symtab.c: which archive members take part, which definition a
--                 name stands for, --defsym, the linker's own symbols, undefined symbols.
--   Mlink.Layout  tools/dev/mlink/layout.c: where each section goes, the values of globals and
--                 common blocks, the entry address.
--   Mlink.Reloc   tools/dev/mlink/reloc.c: the patching of fields.
--   Mlink.Emit    tools/dev/mlink/emit.c: the headers and the bytes of the output file.
--   Mlink.Link    tools/dev/mlink/cli.c: the steps of `main`, each only while no error is counted.
--   Mlink.Main    tools/dev/mlink/cli.c: `main` as a whole.
-- Under them lie Mlink.Bytes (tools/dev/mlink/bytes.c), Mlink.Types (tools/dev/mlink/mlink.h) and
-- Common, which holds the arithmetic, list and string helpers.
--
-- The rendering library's parts:
--   Srapi.Vm       libs/srapi/src/vm/shader.c: the decoder of shader byte code; `Encode` gives the
--                  words of an instruction.
--   Srapi.Exec     libs/srapi/src/vm/exec.c: the machine for fragments and vertices; `Lane` is one
--                  lane of `run_chunk` in exec_simd.c.
--   Srapi.Shade    libs/srapi/src/vm/exec_simd.c: shading a rectangle, its tiles of rows.
--   Srapi.Pool     libs/srapi/src/vm/threadpool.c: the workers and the caller that share out the
--                  tiles, with the mutex and condition variables, as a step relation.
--   Srapi.Render   libs/srapi/src/backend/cpu/renderer.c: pixels, rectangles and lines.
--   Srapi.Command  libs/srapi/src/core/command.c: the recording of commands.
--   Srapi.Queue    libs/srapi/src/core/queue.c, image.c: copies between buffers and images.
-- Net.Url is the URL parser, libs/net/url.c, and Net.Robots the reader of robots.txt,
-- libs/net/robots.c, with the check of tools/network/down/core/robots.c. Tests runs the code on small inputs.
--
-- How the code corresponds. In the linker and the ELF parser the `ml_` and `ot_elf_` prefixes of
-- the source are dropped; elsewhere names are as they stand. The linker's one `ml_context_t`
-- is a record passed from step to step; an array is a list, and a pointer to an object or to a
-- table entry is an index. A buffer of the linker is the list of its bytes; a write outside it does
-- nothing in the model, so what a write relies on is a guard of the code. The pixels of srapi are a
-- function of the offset, which has a value at every offset, so the theorems on them name the
-- offsets that change. `ml_error` counts; the texts of messages are not kept. A function that
-- returns 1 for an error gives `none`, or a Boolean beside the state where the state is kept.
-- Unsigned sums wrap by `% 2 ^ 32` or `% 2 ^ 64`; the sums of `int64_t` in relocations are exact
-- integers, and one that leaves the range, which C does not define, is the outcome `overflowed`.
--
-- Fuel: `select_loop` gets one unit more than there are objects, as each round but the last
-- selects one; `parse_parts` gets one more than the text has characters, as each round reads one;
-- `archive_loop` gets one more than the archive has bytes, as each round passes a header;
-- `decode_words` gets as many as there are words; `line_loop` needs more than the columns and rows
-- between the end points.
--
-- Parameters: `strtoull` and `strtol` of the C library, which files can be read and what they hold,
-- and whether the map and the output can be written (`Platform` in Mlink.Main), floats with their
-- operations and libm (`FloatOps` in Srapi.Exec), the vector intrinsics (`LaneOps` in
-- Srapi.Exec.Lane), whether `realloc` succeeds (in Srapi.Command), `tolower` (in Net.Robots) and
-- what is fetched from the host (in Net.Robots.Checked).
--
-- Not modelled: memory allocation, the texts of help and of messages, the printing of maps and
-- symbols; of the rendering library the loops over eight lanes, triangles and vertices, submission,
-- the tile cache, displays, devices and input; and OneTool's other programs and libraries.
pub mod Common
pub mod Elf
pub mod Mlink
pub mod Srapi
pub mod Net
mod Tests
