-- ===== src/Ebpf/Table/Middle.antt =====
-- internal/sensor/ebpf/syscall_table.go: the names of the syscalls 125 to 249.
use scrutiny.Base.{ℕ, [], ◌∷◌}
use scrutiny.Base.Text.{Text, codes}
use scrutiny.Base.Assoc.{Assoc}

unfoldable pub middle_names : Assoc ℕ Text
unfolding codes
middle_names =
    (125, codes "capget")
    ∷ (126, codes "capset")
    ∷ (127, codes "rt_sigpending")
    ∷ (128, codes "rt_sigtimedwait")
    ∷ (129, codes "rt_sigqueueinfo")
    ∷ (130, codes "rt_sigsuspend")
    ∷ (131, codes "sigaltstack")
    ∷ (132, codes "utime")
    ∷ (133, codes "mknod")
    ∷ (134, codes "uselib")
    ∷ (135, codes "personality")
    ∷ (136, codes "ustat")
    ∷ (137, codes "statfs")
    ∷ (138, codes "fstatfs")
    ∷ (139, codes "sysfs")
    ∷ (140, codes "getpriority")
    ∷ (141, codes "setpriority")
    ∷ (142, codes "sched_setparam")
    ∷ (143, codes "sched_getparam")
    ∷ (144, codes "sched_setscheduler")
    ∷ (145, codes "sched_getscheduler")
    ∷ (146, codes "sched_get_priority_max")
    ∷ (147, codes "sched_get_priority_min")
    ∷ (148, codes "sched_rr_get_interval")
    ∷ (149, codes "mlock")
    ∷ (150, codes "munlock")
    ∷ (151, codes "mlockall")
    ∷ (152, codes "munlockall")
    ∷ (153, codes "vhangup")
    ∷ (154, codes "modify_ldt")
    ∷ (155, codes "pivot_root")
    ∷ (156, codes "_sysctl")
    ∷ (157, codes "prctl")
    ∷ (158, codes "arch_prctl")
    ∷ (159, codes "adjtimex")
    ∷ (160, codes "setrlimit")
    ∷ (161, codes "chroot")
    ∷ (162, codes "sync")
    ∷ (163, codes "acct")
    ∷ (164, codes "settimeofday")
    ∷ (165, codes "mount")
    ∷ (166, codes "umount2")
    ∷ (167, codes "swapon")
    ∷ (168, codes "swapoff")
    ∷ (169, codes "reboot")
    ∷ (170, codes "sethostname")
    ∷ (171, codes "setdomainname")
    ∷ (172, codes "iopl")
    ∷ (173, codes "ioperm")
    ∷ (174, codes "create_module")
    ∷ (175, codes "init_module")
    ∷ (176, codes "delete_module")
    ∷ (177, codes "get_kernel_syms")
    ∷ (178, codes "query_module")
    ∷ (179, codes "quotactl")
    ∷ (180, codes "nfsservctl")
    ∷ (181, codes "getpmsg")
    ∷ (182, codes "putpmsg")
    ∷ (183, codes "afs_syscall")
    ∷ (184, codes "tuxcall")
    ∷ (185, codes "security")
    ∷ (186, codes "gettid")
    ∷ (187, codes "readahead")
    ∷ (188, codes "setxattr")
    ∷ (189, codes "lsetxattr")
    ∷ (190, codes "fsetxattr")
    ∷ (191, codes "getxattr")
    ∷ (192, codes "lgetxattr")
    ∷ (193, codes "fgetxattr")
    ∷ (194, codes "listxattr")
    ∷ (195, codes "llistxattr")
    ∷ (196, codes "flistxattr")
    ∷ (197, codes "removexattr")
    ∷ (198, codes "lremovexattr")
    ∷ (199, codes "fremovexattr")
    ∷ (200, codes "tkill")
    ∷ (201, codes "time")
    ∷ (202, codes "futex")
    ∷ (203, codes "sched_setaffinity")
    ∷ (204, codes "sched_getaffinity")
    ∷ (205, codes "set_thread_area")
    ∷ (206, codes "io_setup")
    ∷ (207, codes "io_destroy")
    ∷ (208, codes "io_getevents")
    ∷ (209, codes "io_submit")
    ∷ (210, codes "io_cancel")
    ∷ (211, codes "get_thread_area")
    ∷ (212, codes "lookup_dcookie")
    ∷ (213, codes "epoll_create")
    ∷ (214, codes "epoll_ctl_old")
    ∷ (215, codes "epoll_wait_old")
    ∷ (216, codes "remap_file_pages")
    ∷ (217, codes "getdents64")
    ∷ (218, codes "set_tid_address")
    ∷ (219, codes "restart_syscall")
    ∷ (220, codes "semtimedop")
    ∷ (221, codes "fadvise64")
    ∷ (222, codes "timer_create")
    ∷ (223, codes "timer_settime")
    ∷ (224, codes "timer_gettime")
    ∷ (225, codes "timer_getoverrun")
    ∷ (226, codes "timer_delete")
    ∷ (227, codes "clock_settime")
    ∷ (228, codes "clock_gettime")
    ∷ (229, codes "clock_getres")
    ∷ (230, codes "clock_nanosleep")
    ∷ (231, codes "exit_group")
    ∷ (232, codes "epoll_wait")
    ∷ (233, codes "epoll_ctl")
    ∷ (234, codes "tgkill")
    ∷ (235, codes "utimes")
    ∷ (236, codes "vserver")
    ∷ (237, codes "mbind")
    ∷ (238, codes "set_mempolicy")
    ∷ (239, codes "get_mempolicy")
    ∷ (240, codes "mq_open")
    ∷ (241, codes "mq_unlink")
    ∷ (242, codes "mq_timedsend")
    ∷ (243, codes "mq_timedreceive")
    ∷ (244, codes "mq_notify")
    ∷ (245, codes "mq_getsetattr")
    ∷ (246, codes "kexec_load")
    ∷ (247, codes "waitid")
    ∷ (248, codes "add_key")
    ∷ (249, codes "request_key")
    ∷ []
