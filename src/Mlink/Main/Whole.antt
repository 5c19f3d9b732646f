-- ===== src/Mlink/Main/Whole.antt =====
-- tools/dev/mlink/cli.c: from the command line and the bytes of the input files to the bytes of the
-- output file.
use one_tool.Common.{ℕ, ◌%◌, ◌≡◌, refl, ◌∙◌, inl, inr, Option-cases, List, some, arith, All}
use one_tool.Mlink.Bytes.{Buffer}
use one_tool.Mlink.Types.{Name, Context}
use one_tool.Mlink.Macros.{apply_pre_layout}
use one_tool.Mlink.Resolve.{resolve_symbols}
use one_tool.Mlink.Layout.Segments.{HasRoom}
use one_tool.Mlink.Emit.Contents.{copied, AllApart, StandsIn}
use one_tool.Mlink.Emit.Disjoint.{IsPlaced}
use one_tool.Mlink.Emit.Filed.{AreRead}
use one_tool.Mlink.Args.{Options, init_options, accepted, parse_args}
use one_tool.Mlink.Args.Base.{IsStart, parse_args-IsAccepted}
use one_tool.Mlink.Input.Loads.{Grows, load_inputs-Grows, Grows-AreRead}
use one_tool.Mlink.Link.{gate, gate_option, link_all, exit_code}
use one_tool.Mlink.Link.Stands.{link_all-StandsIn}
use one_tool.Mlink.Link.Page.{link_all-page}
use one_tool.Mlink.Main.{Platform, load_options, link_inputs, run_main}

-- What is known of a link that writes a file.
pub record IsLinked (ctx : Context) (out : Buffer) : Type 0 where
  pub code : exit_code ctx ≡ 0
  pub stands : All (StandsIn out) (copied ctx.objects)
  pub apart : AllApart (copied ctx.objects)
  pub placed : All (IsPlaced ctx.base_addr) (copied ctx.objects)
  pub page : ctx.base_addr % 0x1000 ≡ 0

loaded-Grows :
    (sys : Platform) (o : Options) (loaded : Context)
    → load_options sys o ≡ some loaded
    → Grows o.ctx loaded
unfolding load_options
loaded-Grows sys o loaded e =
    let (ctx, done, grown) =
      load_inputs-Grows sys.strtoull sys.strtol sys.read_file o.inputs o.ctx in
    let same : ctx ≡ loaded = ground (arith, done, e) in rw (← same) grown

link_inputs-IsLinked :
    (sys : Platform) (o : Options) (loaded resolved ctx' : Context) (out : Buffer)
    → IsStart o.ctx
    → load_options sys o ≡ some loaded
    → gate_option resolve_symbols (gate apply_pre_layout loaded) ≡ some resolved
    → HasRoom resolved
    → link_inputs sys o ≡ some (ctx', some out)
    → IsLinked ctx' out
unfolding link_inputs
link_inputs-IsLinked sys o loaded resolved ctx' out start e r fits h =
    let linked : link_all sys.map_ok sys.write loaded ≡ some (ctx', some out) =
      rw (link_inputs, e) at h in
    let grown = loaded-Grows sys o loaded e in
    let none_yet : AreRead o.ctx.objects = rw start.empty tt in
    let (code, stands, apart, placed) =
      link_all-StandsIn sys.map_ok sys.write loaded ctx' resolved out
        (Grows-AreRead o.ctx loaded grown none_yet) r fits linked in
    record {
      code = code;
      stands = stands;
      apart = apart;
      placed = placed;
      page =
          link_all-page sys.map_ok sys.write loaded ctx' resolved out (rw grown.base start.page) r
            linked;
    }

-- If `main` accepts its command line, the resolved inputs fit below 2 ^ 64, and a file is written in
-- full, then, whatever the input files hold, the exit code is 0, and in the linked context each
-- section that goes into the file stands there, as relocation left it, at its offset; no two of them
-- share a byte of the file, each is aligned, and its address is the base, which is on a page, plus
-- its offset.
pub run_main-IsLinked :
    (sys : Platform) (args : List Name) (o : Options) (loaded resolved : Context) (code : ℕ)
    (out : Buffer)
    → parse_args sys.strtoull sys.readable args init_options ≡ accepted o
    → load_options sys o ≡ some loaded
    → gate_option resolve_symbols (gate apply_pre_layout loaded) ≡ some resolved
    → HasRoom resolved
    → run_main sys args ≡ some (code, some out)
    → (code ≡ 0) × (ctx : Context) × (link_inputs sys o ≡ some (ctx, some out)) × IsLinked ctx out
unfolding run_main
run_main-IsLinked sys args o loaded resolved code out a e r fits h =
    elim (Option-cases (link_inputs sys o)) [
      | inl f ↦ ground (arith, a, f)
      | inr ((ctx, file), f) ↦
          let ends : some (exit_code ctx, file) ≡ some (code, some out) =
            rw (run_main, a, f) at h in
          let coded : exit_code ctx ≡ code = ground arith in
          let filed : file ≡ some out = ground arith in
          let run : link_inputs sys o ≡ some (ctx, some out) = f ∙ rw filed refl in
          let linked =
            link_inputs-IsLinked sys o loaded resolved ctx out
              (parse_args-IsAccepted sys.strtoull sys.readable args o a).start e r fits run in
          (rw (← coded) linked.code, ctx, run, linked)
    ]
