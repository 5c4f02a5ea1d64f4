-- ===== src/Config/Grammar/Tables.antt =====
-- The tables of grammars and steps, of all modes and of each.
--
-- MACHINE and MACHINE_ARCH are arguments. In a table of steps, `none` is the entry without a name
-- that stands for the tests of robsd-regress.
use Prim.Native.String.{String}
use robsd.Base.{Bool, true, false, List, [], ◌∷◌, Option, none, some, Bytes, codes, pos}
use robsd.Config.Value.{
  VariableType, invalid_type, integer_type, string_type, directory_type, list_type,
}
use robsd.Config.Grammar.{
  Parser, GrammarFlags, GrammarDefault, Grammar, null, s8, i32, fun, parse_boolean, parse_string,
  parse_integer, parse_glob, parse_list, parse_user, parse_timeout, parse_directory, parse_regress,
  parse_regress_env, parse_canvas_directory, parse_canvas_step, default_build_dir, default_exec_dir,
  default_inet4, default_inet6, default_ncpu, default_trace, default_rdomain,
  default_regress_targets, default_parallel, default_regress_timeout,
}

abbrev flags : Bool → Bool → Bool → Bool → Bool → GrammarFlags
flags a b c d e = record { req = a; rep = b; pat = c; is_fun = d; early = e }

abbrev pub plain : GrammarFlags
plain = flags false false false false false

abbrev pub required : GrammarFlags
required = flags true false false false false

abbrev repeated : GrammarFlags
repeated = flags false true false false false

abbrev required_repeated : GrammarFlags
required_repeated = flags true true false false false

abbrev by_fun : GrammarFlags
by_fun = flags false false false true false

abbrev by_fun_early : GrammarFlags
by_fun_early = flags false false false true true

abbrev pattern_early : GrammarFlags
pattern_early = flags false false true false true

abbrev pub pattern_by_fun : GrammarFlags
pattern_by_fun = flags false false true true false

abbrev pub entry : Bytes → VariableType → Option Parser → GrammarFlags → GrammarDefault → Grammar
entry kw type fn fl default = record {
  gr_kw = kw;
  gr_type = type;
  gr_fn = fn;
  gr_flags = fl;
  gr_default = default;
}

module _ (machine machine_arch : Bytes) where
  abbrev pub common_grammar : List Grammar
  common_grammar =
      entry (codes "arch") string_type none plain (s8 machine_arch)
      ∷ entry (codes "build-user") string_type none plain (s8 (codes "build"))
      ∷ entry (codes "builddir") string_type none by_fun (fun default_build_dir)
      ∷ entry (codes "comment-path") string_type none plain (s8 (codes "${builddir}/comment"))
      ∷ entry (codes "exec-dir") string_type none by_fun (fun default_exec_dir)
      ∷ entry (codes "hook") list_type (some parse_list) plain null
      ∷ entry (codes "inet") string_type none by_fun (fun default_inet4)
      ∷ entry (codes "inet6") string_type none by_fun (fun default_inet6)
      ∷ entry (codes "keep") integer_type (some parse_integer) plain null
      ∷ entry (codes "keep-attic") integer_type (some parse_boolean) plain (i32 (pos 1))
      ∷ entry (codes "keep-dir") string_type none plain (s8 (codes "${robsddir}/attic"))
      ∷ entry (codes "machine") string_type none plain (s8 machine)
      ∷ entry (codes "ncpu") integer_type none by_fun (fun default_ncpu)
      ∷ entry (codes "report-path") string_type none plain (s8 (codes "${builddir}/report"))
      ∷ entry (codes "robsddir") directory_type (some parse_directory) required null
      ∷ entry (codes "skip") list_type (some parse_list) plain null
      ∷ entry (codes "stat-interval") integer_type (some parse_integer) plain (i32 (pos 10))
      ∷ entry (codes "tags-path") string_type none plain (s8 (codes "${builddir}/tags"))
      ∷ entry (codes "tmp-dir") string_type none plain (s8 (codes "${builddir}/tmp"))
      ∷ entry (codes "trace") string_type none by_fun (fun default_trace)
      ∷ []

abbrev pub robsd_grammar : List Grammar
robsd_grammar =
    entry (codes "destdir") directory_type (some parse_directory) required null
    ∷ entry (codes "kernel") string_type (some parse_string) plain (s8 (codes "GENERIC.MP"))
    ∷ entry (codes "reboot") integer_type (some parse_boolean) plain null
    ∷ entry (codes "bsd-diff") list_type (some parse_glob) plain null
    ∷ entry (codes "bsd-objdir") directory_type (some parse_directory) plain (s8 (codes "/usr/obj"))
    ∷ entry (codes "bsd-reldir") string_type none plain (s8 (codes "${builddir}/rel"))
    ∷ entry (codes "bsd-srcdir") directory_type (some parse_directory) plain (s8 (codes "/usr/src"))
    ∷ entry (codes "cvs-root") string_type (some parse_string) plain null
    ∷ entry (codes "cvs-user") string_type (some parse_user) plain null
    ∷ entry (codes "distrib-host") string_type (some parse_string) plain null
    ∷ entry (codes "distrib-path") string_type (some parse_string) plain null
    ∷ entry (codes "distrib-signify") string_type (some parse_string) plain null
    ∷ entry (codes "distrib-user") string_type (some parse_user) plain null
    ∷ entry (codes "x11-diff") list_type (some parse_glob) plain null
    ∷ entry (codes "x11-objdir") directory_type (some parse_directory) plain
        (s8 (codes "/usr/xobj"))
    ∷ entry (codes "x11-reldir") string_type none plain (s8 (codes "${builddir}/relx"))
    ∷ entry (codes "x11-srcdir") directory_type (some parse_directory) plain
        (s8 (codes "/usr/xenocara"))
    ∷ []

abbrev pub robsd_cross_grammar : List Grammar
robsd_cross_grammar =
    entry (codes "crossdir") string_type (some parse_string) required null
    ∷ entry (codes "bsd-srcdir") directory_type (some parse_directory) plain (s8 (codes "/usr/src"))
    ∷ []

abbrev pub robsd_ports_grammar : List Grammar
robsd_ports_grammar =
    entry (codes "chroot") string_type (some parse_string) required null
    ∷ entry (codes "cvs-root") string_type (some parse_string) plain null
    ∷ entry (codes "cvs-user") string_type (some parse_user) plain null
    ∷ entry (codes "distrib-host") string_type (some parse_string) plain null
    ∷ entry (codes "distrib-path") string_type (some parse_string) plain null
    ∷ entry (codes "distrib-signify") string_type (some parse_string) plain null
    ∷ entry (codes "distrib-user") string_type (some parse_user) plain null
    ∷ entry (codes "dpb") list_type (some parse_list) plain null
    ∷ entry (codes "ports") list_type (some parse_list) required null
    ∷ entry (codes "ports-diff") list_type (some parse_glob) plain null
    ∷ entry (codes "ports-dir") string_type (some parse_string) plain (s8 (codes "/usr/ports"))
    ∷ entry (codes "ports-user") string_type (some parse_user) required null
    ∷ []

abbrev pub robsd_regress_grammar : List Grammar
robsd_regress_grammar =
    entry (codes "parallel") integer_type (some parse_boolean) plain (i32 (pos 1))
    ∷ entry (codes "rdonly") integer_type (some parse_boolean) plain null
    ∷ entry (codes "sudo") string_type (some parse_string) plain (s8 (codes "doas -n"))
    ∷ entry (codes "bsd-diff") list_type (some parse_glob) plain null
    ∷ entry (codes "bsd-srcdir") directory_type (some parse_directory) plain (s8 (codes "/usr/src"))
    ∷ entry (codes "cvs-root") string_type (some parse_string) plain null
    ∷ entry (codes "cvs-user") string_type (some parse_user) plain null
    ∷ entry (codes "rdomain") integer_type none by_fun_early (fun default_rdomain)
    ∷ entry (codes "regress") list_type (some parse_regress) required_repeated null
    ∷ entry (codes "regress-env") list_type (some parse_regress_env) repeated null
    ∷ entry (codes "regress-user") string_type (some parse_user) plain (s8 (codes "${build-user}"))
    ∷ entry (codes "regress-timeout") integer_type (some parse_timeout) plain null
    ∷ entry (codes "regress-*-env") string_type none pattern_early (s8 (codes "${regress-env}"))
    ∷ entry (codes "regress-*-targets") list_type none pattern_by_fun (fun default_regress_targets)
    ∷ entry (codes "regress-*-parallel") integer_type none pattern_by_fun (fun default_parallel)
    ∷ entry (codes "regress-*-timeout") integer_type none pattern_by_fun
        (fun default_regress_timeout)
    ∷ []

abbrev pub canvas_grammar : List Grammar
canvas_grammar =
    entry (codes "canvas-dir") string_type (some parse_canvas_directory) required null
    ∷ entry (codes "canvas-name") string_type (some parse_string) required null
    ∷ entry (codes "env") list_type (some parse_list) plain null
    ∷ entry (codes "step") invalid_type (some parse_canvas_step) required_repeated null
    ∷ []

-- The name of a step, if it has one, and its script.
abbrev pub StepEntry : Type 0
StepEntry = Option Bytes × Bytes

abbrev step : String → String → StepEntry
step name path = (some (codes name), codes path)

abbrev no_name : StepEntry
no_name = (none, [])

abbrev pub robsd_steps : List StepEntry
robsd_steps =
    step "env" "${exec-dir}/robsd-env.sh"
    ∷ step "cvs" "${exec-dir}/robsd-cvs.sh"
    ∷ step "patch" "${exec-dir}/robsd-patch.sh"
    ∷ step "kernel" "${exec-dir}/robsd-kernel.sh"
    ∷ step "reboot" "${exec-dir}/robsd-reboot.sh"
    ∷ step "env" "${exec-dir}/robsd-env.sh"
    ∷ step "base" "${exec-dir}/robsd-base.sh"
    ∷ step "release" "${exec-dir}/robsd-release.sh"
    ∷ step "checkflist" "${exec-dir}/robsd-checkflist.sh"
    ∷ step "xbase" "${exec-dir}/robsd-xbase.sh"
    ∷ step "xrelease" "${exec-dir}/robsd-xrelease.sh"
    ∷ step "image" "${exec-dir}/robsd-image.sh"
    ∷ step "hash" "${exec-dir}/robsd-hash.sh"
    ∷ step "revert" "${exec-dir}/robsd-revert.sh"
    ∷ step "distrib" "${exec-dir}/robsd-distrib.sh"
    ∷ step "dmesg" "${exec-dir}/robsd-dmesg.sh"
    ∷ step "end" "/dev/null"
    ∷ []

abbrev pub robsd_cross_steps : List StepEntry
robsd_cross_steps =
    step "env" "${exec-dir}/robsd-env.sh"
    ∷ step "dirs" "${exec-dir}/robsd-cross-dirs.sh"
    ∷ step "tools" "${exec-dir}/robsd-cross-tools.sh"
    ∷ step "distrib" "${exec-dir}/robsd-cross-distrib.sh"
    ∷ step "dmesg" "${exec-dir}/robsd-dmesg.sh"
    ∷ step "end" "/dev/null"
    ∷ []

abbrev pub robsd_ports_steps : List StepEntry
robsd_ports_steps =
    step "env" "${exec-dir}/robsd-env.sh"
    ∷ step "cvs" "${exec-dir}/robsd-cvs.sh"
    ∷ step "clean" "${exec-dir}/robsd-ports-clean.sh"
    ∷ step "proot" "${exec-dir}/robsd-ports-proot.sh"
    ∷ step "patch" "${exec-dir}/robsd-patch.sh"
    ∷ step "dpb" "${exec-dir}/robsd-ports-dpb.sh"
    ∷ step "distrib" "${exec-dir}/robsd-ports-distrib.sh"
    ∷ step "revert" "${exec-dir}/robsd-revert.sh"
    ∷ step "dmesg" "${exec-dir}/robsd-dmesg.sh"
    ∷ step "end" "/dev/null"
    ∷ []

abbrev pub robsd_regress_steps : List StepEntry
robsd_regress_steps =
    step "env" "${exec-dir}/robsd-env.sh"
    ∷ step "pkg-add" "${exec-dir}/robsd-regress-pkg-add.sh"
    ∷ step "cvs" "${exec-dir}/robsd-cvs.sh"
    ∷ step "patch" "${exec-dir}/robsd-patch.sh"
    ∷ step "obj" "${exec-dir}/robsd-regress-obj.sh"
    ∷ step "mount" "${exec-dir}/robsd-regress-mount.sh"
    ∷ no_name
    ∷ step "umount" "${exec-dir}/robsd-regress-umount.sh"
    ∷ step "revert" "${exec-dir}/robsd-revert.sh"
    ∷ step "pkg-del" "${exec-dir}/robsd-regress-pkg-del.sh"
    ∷ step "dmesg" "${exec-dir}/robsd-dmesg.sh"
    ∷ step "end" "/dev/null"
    ∷ []
