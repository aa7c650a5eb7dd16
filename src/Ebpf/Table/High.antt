-- ===== src/Ebpf/Table/High.antt =====
-- internal/sensor/ebpf/syscall_table.go: the names of the syscalls 250 to 461.
use scrutiny.Base.{ℕ, [], ◌∷◌}
use scrutiny.Base.Text.{Text, codes}
use scrutiny.Base.Assoc.{Assoc}

unfoldable pub high_names : Assoc ℕ Text
unfolding codes
high_names =
    (250, codes "keyctl")
    ∷ (251, codes "ioprio_set")
    ∷ (252, codes "ioprio_get")
    ∷ (253, codes "inotify_init")
    ∷ (254, codes "inotify_add_watch")
    ∷ (255, codes "inotify_rm_watch")
    ∷ (256, codes "migrate_pages")
    ∷ (257, codes "openat")
    ∷ (258, codes "mkdirat")
    ∷ (259, codes "mknodat")
    ∷ (260, codes "fchownat")
    ∷ (261, codes "futimesat")
    ∷ (262, codes "newfstatat")
    ∷ (263, codes "unlinkat")
    ∷ (264, codes "renameat")
    ∷ (265, codes "linkat")
    ∷ (266, codes "symlinkat")
    ∷ (267, codes "readlinkat")
    ∷ (268, codes "fchmodat")
    ∷ (269, codes "faccessat")
    ∷ (270, codes "pselect6")
    ∷ (271, codes "ppoll")
    ∷ (272, codes "unshare")
    ∷ (273, codes "set_robust_list")
    ∷ (274, codes "get_robust_list")
    ∷ (275, codes "splice")
    ∷ (276, codes "tee")
    ∷ (277, codes "sync_file_range")
    ∷ (278, codes "vmsplice")
    ∷ (279, codes "move_pages")
    ∷ (280, codes "utimensat")
    ∷ (281, codes "epoll_pwait")
    ∷ (282, codes "signalfd")
    ∷ (283, codes "timerfd_create")
    ∷ (284, codes "eventfd")
    ∷ (285, codes "fallocate")
    ∷ (286, codes "timerfd_settime")
    ∷ (287, codes "timerfd_gettime")
    ∷ (288, codes "accept4")
    ∷ (289, codes "signalfd4")
    ∷ (290, codes "eventfd2")
    ∷ (291, codes "epoll_create1")
    ∷ (292, codes "dup3")
    ∷ (293, codes "pipe2")
    ∷ (294, codes "inotify_init1")
    ∷ (295, codes "preadv")
    ∷ (296, codes "pwritev")
    ∷ (297, codes "rt_tgsigqueueinfo")
    ∷ (298, codes "perf_event_open")
    ∷ (299, codes "recvmmsg")
    ∷ (300, codes "fanotify_init")
    ∷ (301, codes "fanotify_mark")
    ∷ (302, codes "prlimit64")
    ∷ (303, codes "name_to_handle_at")
    ∷ (304, codes "open_by_handle_at")
    ∷ (305, codes "clock_adjtime")
    ∷ (306, codes "syncfs")
    ∷ (307, codes "sendmmsg")
    ∷ (308, codes "setns")
    ∷ (309, codes "getcpu")
    ∷ (310, codes "process_vm_readv")
    ∷ (311, codes "process_vm_writev")
    ∷ (312, codes "kcmp")
    ∷ (313, codes "finit_module")
    ∷ (314, codes "sched_setattr")
    ∷ (315, codes "sched_getattr")
    ∷ (316, codes "renameat2")
    ∷ (317, codes "seccomp")
    ∷ (318, codes "getrandom")
    ∷ (319, codes "memfd_create")
    ∷ (320, codes "kexec_file_load")
    ∷ (321, codes "bpf")
    ∷ (322, codes "execveat")
    ∷ (323, codes "userfaultfd")
    ∷ (324, codes "membarrier")
    ∷ (325, codes "mlock2")
    ∷ (326, codes "copy_file_range")
    ∷ (327, codes "preadv2")
    ∷ (328, codes "pwritev2")
    ∷ (329, codes "pkey_mprotect")
    ∷ (330, codes "pkey_alloc")
    ∷ (331, codes "pkey_free")
    ∷ (332, codes "statx")
    ∷ (333, codes "io_pgetevents")
    ∷ (334, codes "rseq")
    ∷ (424, codes "pidfd_send_signal")
    ∷ (425, codes "io_uring_setup")
    ∷ (426, codes "io_uring_enter")
    ∷ (427, codes "io_uring_register")
    ∷ (428, codes "open_tree")
    ∷ (429, codes "move_mount")
    ∷ (430, codes "fsopen")
    ∷ (431, codes "fsconfig")
    ∷ (432, codes "fsmount")
    ∷ (433, codes "fspick")
    ∷ (434, codes "pidfd_open")
    ∷ (435, codes "clone3")
    ∷ (436, codes "close_range")
    ∷ (437, codes "openat2")
    ∷ (438, codes "pidfd_getfd")
    ∷ (439, codes "faccessat2")
    ∷ (440, codes "process_madvise")
    ∷ (441, codes "epoll_pwait2")
    ∷ (442, codes "mount_setattr")
    ∷ (443, codes "quotactl_fd")
    ∷ (444, codes "landlock_create_ruleset")
    ∷ (445, codes "landlock_add_rule")
    ∷ (446, codes "landlock_restrict_self")
    ∷ (447, codes "memfd_secret")
    ∷ (448, codes "process_mrelease")
    ∷ (449, codes "futex_waitv")
    ∷ (450, codes "set_mempolicy_home_node")
    ∷ (451, codes "cachestat")
    ∷ (452, codes "fchmodat2")
    ∷ (453, codes "map_shadow_stack")
    ∷ (454, codes "futex_wake")
    ∷ (455, codes "futex_wait")
    ∷ (456, codes "futex_requeue")
    ∷ (457, codes "statmount")
    ∷ (458, codes "listmount")
    ∷ (459, codes "lsm_get_self_attr")
    ∷ (460, codes "lsm_set_self_attr")
    ∷ (461, codes "lsm_list_modules")
    ∷ []
