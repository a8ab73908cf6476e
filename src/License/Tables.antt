-- ===== src/License/Tables.antt =====
-- src/policy.rs: the SPDX ids that are deprecated and the exceptions that are known.
use yanuget.Prelude.{Option, none, some, List, [], ◌∷◌}
use yanuget.Text.{Text, text}

pub record Deprecated : Type 0 where
  pub old : Text
  pub new : Text
  pub exception : Option Text

abbrev entry : Text → Text → Option Text → Deprecated
entry old new exception = record { old = old; new = new; exception = exception }

unfoldable pub deprecated : List Deprecated
deprecated =
    entry (text "AGPL-1.0") (text "AGPL-1.0-only") none
    ∷ entry (text "AGPL-3.0") (text "AGPL-3.0-only") none
    ∷ entry (text "GFDL-1.1") (text "GFDL-1.1-only") none
    ∷ entry (text "GFDL-1.2") (text "GFDL-1.2-only") none
    ∷ entry (text "GFDL-1.3") (text "GFDL-1.3-only") none
    ∷ entry (text "GPL-1.0") (text "GPL-1.0-only") none
    ∷ entry (text "GPL-2.0") (text "GPL-2.0-only") none
    ∷ entry (text "GPL-3.0") (text "GPL-3.0-only") none
    ∷ entry (text "LGPL-2.0") (text "LGPL-2.0-only") none
    ∷ entry (text "LGPL-2.1") (text "LGPL-2.1-only") none
    ∷ entry (text "LGPL-3.0") (text "LGPL-3.0-only") none
    ∷ entry (text "GPL-2.0-with-autoconf-exception") (text "GPL-2.0-only")
        (some (text "Autoconf-exception-2.0"))
    ∷ entry (text "GPL-2.0-with-bison-exception") (text "GPL-2.0-only")
        (some (text "Bison-exception-2.2"))
    ∷ entry (text "GPL-2.0-with-classpath-exception") (text "GPL-2.0-only")
        (some (text "Classpath-exception-2.0"))
    ∷ entry (text "GPL-2.0-with-font-exception") (text "GPL-2.0-only")
        (some (text "Font-exception-2.0"))
    ∷ entry (text "GPL-2.0-with-GCC-exception") (text "GPL-2.0-only")
        (some (text "GCC-exception-2.0"))
    ∷ entry (text "GPL-3.0-with-autoconf-exception") (text "GPL-3.0-only")
        (some (text "Autoconf-exception-3.0"))
    ∷ entry (text "GPL-3.0-with-GCC-exception") (text "GPL-3.0-only")
        (some (text "GCC-exception-3.1"))
    ∷ entry (text "eCos-2.0") (text "GPL-2.0-or-later") (some (text "eCos-exception-2.0"))
    ∷ entry (text "wxWindows") (text "LGPL-2.0-or-later") (some (text "WxWindows-exception-3.1"))
    ∷ entry (text "BSD-2-Clause-FreeBSD") (text "BSD-2-Clause") none
    ∷ entry (text "BSD-2-Clause-NetBSD") (text "BSD-2-Clause") none
    ∷ entry (text "bzip2-1.0.5") (text "bzip2-1.0.6") none
    ∷ entry (text "Nunit") (text "zlib-acknowledgement") none
    ∷ entry (text "StandardML-NJ") (text "SMLNJ") none
    ∷ []

unfoldable pub known_exceptions : List Text
known_exceptions =
    text "389-exception"
    ∷ text "Asterisk-exception"
    ∷ text "Asterisk-linking-protocols-exception"
    ∷ text "Autoconf-exception-2.0"
    ∷ text "Autoconf-exception-3.0"
    ∷ text "Autoconf-exception-generic"
    ∷ text "Autoconf-exception-generic-3.0"
    ∷ text "Autoconf-exception-macro"
    ∷ text "Bison-exception-1.24"
    ∷ text "Bison-exception-2.2"
    ∷ text "Bootloader-exception"
    ∷ text "CGAL-linking-exception"
    ∷ text "Classpath-exception-2.0"
    ∷ text "Classpath-exception-2.0-short"
    ∷ text "CLISP-exception-2.0"
    ∷ text "cryptsetup-OpenSSL-exception"
    ∷ text "Digia-Qt-LGPL-exception-1.1"
    ∷ text "DigiRule-FOSS-exception"
    ∷ text "eCos-exception-2.0"
    ∷ text "erlang-otp-linking-exception"
    ∷ text "Fawkes-Runtime-exception"
    ∷ text "FLTK-exception"
    ∷ text "fmt-exception"
    ∷ text "Font-exception-2.0"
    ∷ text "freertos-exception-2.0"
    ∷ text "GCC-exception-2.0"
    ∷ text "GCC-exception-2.0-note"
    ∷ text "GCC-exception-3.1"
    ∷ text "Gmsh-exception"
    ∷ text "GNAT-exception"
    ∷ text "GNOME-examples-exception"
    ∷ text "GNU-compiler-exception"
    ∷ text "gnu-javamail-exception"
    ∷ text "GPL-3.0-389-ds-base-exception"
    ∷ text "GPL-3.0-interface-exception"
    ∷ text "GPL-3.0-linking-exception"
    ∷ text "GPL-3.0-linking-source-exception"
    ∷ text "GPL-CC-1.0"
    ∷ text "GStreamer-exception-2005"
    ∷ text "GStreamer-exception-2008"
    ∷ text "harbour-exception"
    ∷ text "i2p-gpl-java-exception"
    ∷ text "Independent-modules-exception"
    ∷ text "KiCad-libraries-exception"
    ∷ text "LGPL-3.0-linking-exception"
    ∷ text "libpri-OpenH323-exception"
    ∷ text "Libtool-exception"
    ∷ text "Linux-syscall-note"
    ∷ text "LLGPL"
    ∷ text "LLVM-exception"
    ∷ text "LZMA-exception"
    ∷ text "mif-exception"
    ∷ text "mxml-exception"
    ∷ text "Nokia-Qt-exception-1.1"
    ∷ text "OCaml-LGPL-linking-exception"
    ∷ text "OCCT-exception-1.0"
    ∷ text "OpenJDK-assembly-exception-1.0"
    ∷ text "openvpn-openssl-exception"
    ∷ text "PCRE2-exception"
    ∷ text "polyparse-exception"
    ∷ text "PS-or-PDF-font-exception-20170817"
    ∷ text "QPL-1.0-INRIA-2004-exception"
    ∷ text "Qt-GPL-exception-1.0"
    ∷ text "Qt-LGPL-exception-1.1"
    ∷ text "Qwt-exception-1.0"
    ∷ text "romic-exception"
    ∷ text "RRDtool-FLOSS-exception-2.0"
    ∷ text "SANE-exception"
    ∷ text "SHL-2.0"
    ∷ text "SHL-2.1"
    ∷ text "stunnel-exception"
    ∷ text "SWI-exception"
    ∷ text "Swift-exception"
    ∷ text "Texinfo-exception"
    ∷ text "u-boot-exception-2.0"
    ∷ text "UBDL-exception"
    ∷ text "Universal-FOSS-exception-1.0"
    ∷ text "vsftpd-openssl-exception"
    ∷ text "WxWindows-exception-3.1"
    ∷ text "x11vnc-openssl-exception"
    ∷ []
