-- ===== src/Main/Lock.antt =====
-- wireproxy/cmd/wireproxy/main.go: `lock`. What it asks of OpenBSD (pledge, unveil) and of Linux
-- (landlock), in order; each ends the program if it fails.
use scramjet_app.Base.{Bool, Bytes, List, Option, [], bytes, none, some, true, ◌∷◌}
use scramjet_app.Go.Strings.{split}

pub data Stage : Type 0 where
  boot boot_daemon read_config ready : Stage

-- What landlock lets the process use: an absent path is ignored where `optional` is set.
pub data PathRule : Type 0 where
  ro_dirs : Bytes → PathRule
  ro_files rw_files : (path : Bytes) (optional : Bool) → PathRule

pub data SystemCall : Type 0 where
  unveil : (path flags : Bytes) → SystemCall
  pledge : (promises : Bytes) → SystemCall
  -- `net.DefaultResolver.PreferGo = true`
  prefers_go_resolver : SystemCall
  restrict_paths : List PathRule → SystemCall

abbrev pub ro : Bytes → PathRule
ro path = ro_files path true

abbrev pub rw_path : Bytes → PathRule
rw_path path = rw_files path true

abbrev pub ready_paths : List PathRule
ready_paths =
    ro (bytes "/etc/resolv.conf")
    ∷ ro (bytes "/dev/fd")
    ∷ ro (bytes "/dev/zero")
    ∷ ro (bytes "/dev/urandom")
    ∷ ro (bytes "/etc/localtime")
    ∷ ro (bytes "/proc/self/stat")
    ∷ ro (bytes "/proc/self/status")
    ∷ ro (bytes "/usr/share/locale")
    ∷ ro (bytes "/proc/self/cmdline")
    ∷ ro (bytes "/usr/share/zoneinfo")
    ∷ ro (bytes "/proc/sys/kernel/version")
    ∷ ro (bytes "/proc/sys/kernel/ngroups_max")
    ∷ ro (bytes "/proc/sys/kernel/cap_last_cap")
    ∷ ro (bytes "/proc/sys/vm/overcommit_memory")
    ∷ rw_path (bytes "/dev/log")
    ∷ rw_path (bytes "/dev/null")
    ∷ rw_path (bytes "/dev/full")
    ∷ rw_path (bytes "/proc/self/fd")
    ∷ []

-- `lock`, for the path of the program; there is no other stage.
unfoldable pub lock : Bytes → Stage → List SystemCall
lock exe_path boot =
    unveil (bytes "/") (bytes "r")
    ∷ unveil exe_path (bytes "x")
    ∷ pledge (bytes "stdio rpath inet dns proc exec")
    ∷ restrict_paths (ro_dirs (bytes "/") ∷ rw_path (bytes "/dev/null") ∷ [])
    ∷ []
lock exe_path boot_daemon = []
lock exe_path read_config = pledge (bytes "stdio rpath inet dns") ∷ []
lock exe_path ready =
    pledge (bytes "stdio inet dns") ∷ prefers_go_resolver ∷ restrict_paths ready_paths ∷ []

-- The words of a promise.
unfoldable pub words : Bytes → List Bytes
words promises = split b' ' promises

abbrev pub pledged : List SystemCall → Option (List Bytes)
pledged [] = none
pledged (pledge promises ∷ calls) = some (words promises)
pledged (_ ∷ calls) = pledged calls

-- What a stage promises, if anything.
unfoldable pub promises : Stage → Option (List Bytes)
unfolding words lock
promises stage = pledged (lock [] stage)
