-- ===== src/Ebpf/Table/Low.antt =====
-- internal/sensor/ebpf/syscall_table.go: the names of the syscalls 0 to 124.
use scrutiny.Base.{ℕ, [], ◌∷◌}
use scrutiny.Base.Text.{Text, codes}
use scrutiny.Base.Assoc.{Assoc}

unfoldable pub low_names : Assoc ℕ Text
unfolding codes
low_names =
    (0, codes "read")
    ∷ (1, codes "write")
    ∷ (2, codes "open")
    ∷ (3, codes "close")
    ∷ (4, codes "stat")
    ∷ (5, codes "fstat")
    ∷ (6, codes "lstat")
    ∷ (7, codes "poll")
    ∷ (8, codes "lseek")
    ∷ (9, codes "mmap")
    ∷ (10, codes "mprotect")
    ∷ (11, codes "munmap")
    ∷ (12, codes "brk")
    ∷ (13, codes "rt_sigaction")
    ∷ (14, codes "rt_sigprocmask")
    ∷ (15, codes "rt_sigreturn")
    ∷ (16, codes "ioctl")
    ∷ (17, codes "pread64")
    ∷ (18, codes "pwrite64")
    ∷ (19, codes "readv")
    ∷ (20, codes "writev")
    ∷ (21, codes "access")
    ∷ (22, codes "pipe")
    ∷ (23, codes "select")
    ∷ (24, codes "sched_yield")
    ∷ (25, codes "mremap")
    ∷ (26, codes "msync")
    ∷ (27, codes "mincore")
    ∷ (28, codes "madvise")
    ∷ (29, codes "shmget")
    ∷ (30, codes "shmat")
    ∷ (31, codes "shmctl")
    ∷ (32, codes "dup")
    ∷ (33, codes "dup2")
    ∷ (34, codes "pause")
    ∷ (35, codes "nanosleep")
    ∷ (36, codes "getitimer")
    ∷ (37, codes "alarm")
    ∷ (38, codes "setitimer")
    ∷ (39, codes "getpid")
    ∷ (40, codes "sendfile")
    ∷ (41, codes "socket")
    ∷ (42, codes "connect")
    ∷ (43, codes "accept")
    ∷ (44, codes "sendto")
    ∷ (45, codes "recvfrom")
    ∷ (46, codes "sendmsg")
    ∷ (47, codes "recvmsg")
    ∷ (48, codes "shutdown")
    ∷ (49, codes "bind")
    ∷ (50, codes "listen")
    ∷ (51, codes "getsockname")
    ∷ (52, codes "getpeername")
    ∷ (53, codes "socketpair")
    ∷ (54, codes "setsockopt")
    ∷ (55, codes "getsockopt")
    ∷ (56, codes "clone")
    ∷ (57, codes "fork")
    ∷ (58, codes "vfork")
    ∷ (59, codes "execve")
    ∷ (60, codes "exit")
    ∷ (61, codes "wait4")
    ∷ (62, codes "kill")
    ∷ (63, codes "uname")
    ∷ (64, codes "semget")
    ∷ (65, codes "semop")
    ∷ (66, codes "semctl")
    ∷ (67, codes "shmdt")
    ∷ (68, codes "msgget")
    ∷ (69, codes "msgsnd")
    ∷ (70, codes "msgrcv")
    ∷ (71, codes "msgctl")
    ∷ (72, codes "fcntl")
    ∷ (73, codes "flock")
    ∷ (74, codes "fsync")
    ∷ (75, codes "fdatasync")
    ∷ (76, codes "truncate")
    ∷ (77, codes "ftruncate")
    ∷ (78, codes "getdents")
    ∷ (79, codes "getcwd")
    ∷ (80, codes "chdir")
    ∷ (81, codes "fchdir")
    ∷ (82, codes "rename")
    ∷ (83, codes "mkdir")
    ∷ (84, codes "rmdir")
    ∷ (85, codes "creat")
    ∷ (86, codes "link")
    ∷ (87, codes "unlink")
    ∷ (88, codes "symlink")
    ∷ (89, codes "readlink")
    ∷ (90, codes "chmod")
    ∷ (91, codes "fchmod")
    ∷ (92, codes "chown")
    ∷ (93, codes "fchown")
    ∷ (94, codes "lchown")
    ∷ (95, codes "umask")
    ∷ (96, codes "gettimeofday")
    ∷ (97, codes "getrlimit")
    ∷ (98, codes "getrusage")
    ∷ (99, codes "sysinfo")
    ∷ (100, codes "times")
    ∷ (101, codes "ptrace")
    ∷ (102, codes "getuid")
    ∷ (103, codes "syslog")
    ∷ (104, codes "getgid")
    ∷ (105, codes "setuid")
    ∷ (106, codes "setgid")
    ∷ (107, codes "geteuid")
    ∷ (108, codes "getegid")
    ∷ (109, codes "setpgid")
    ∷ (110, codes "getppid")
    ∷ (111, codes "getpgrp")
    ∷ (112, codes "setsid")
    ∷ (113, codes "setreuid")
    ∷ (114, codes "setregid")
    ∷ (115, codes "getgroups")
    ∷ (116, codes "setgroups")
    ∷ (117, codes "setresuid")
    ∷ (118, codes "getresuid")
    ∷ (119, codes "setresgid")
    ∷ (120, codes "getresgid")
    ∷ (121, codes "getpgid")
    ∷ (122, codes "setfsuid")
    ∷ (123, codes "setfsgid")
    ∷ (124, codes "getsid")
    ∷ []
